-- ===== src/Tests/Switches.antt =====
-- The lock inhibitor's switch.
use home_pc_agent.Common.{refl, ◌==◌, true, false, ◌&&◌, ◌||◌, none, [], ◌∷◌, ◌≡◌, Text, codes}
use home_pc_agent.Entity.{online, unavailable}
use home_pc_agent.Inhibit.{Inhibitor, Plugin, refresh_item, is_unavailable}
use home_pc_agent.Inhibit.Switching.{refresh_item-active}
use home_pc_agent.Inhibit.{start_inhibitors}
use home_pc_agent.Core.Scope.{
  World, new_scope, run_script, host_call, register_entity, subscribe_command, publish_state,
}
use home_pc_agent.Tests.Data.{lamp_world, empty_registry, empty_router, accepting}

abbrev held : Inhibitor
held = record { cookie = 3; active = true; availability = online }

abbrev lock : Text
lock = codes "session.lock_inhibited"

-- held, though a failed call has made it unavailable
abbrev stuck : Inhibitor
stuck = record held { availability = unavailable }

refresh_item-active_example :
    (refresh_item lock false stuck lamp_world).0.active
    ≡ (stuck.active && (false || is_unavailable stuck.availability))
refresh_item-active_example = refresh_item-active lock false stuck lamp_world

abbrev plugin : Plugin
plugin = record { inhibitors = (lock, held) ∷ []; world = lamp_world }

-- Start in an empty registry and router registers both switches and returns no error.
abbrev start_world : World
unfolding new_scope
start_world = record {
  registry = empty_registry;
  router = empty_router;
  scope = new_scope (codes "inhibit_freedesktop");
}

started : (run_script (start_inhibitors none (λ id. accepting) (λ id. true)) start_world).1 ≡ none
unfolding start_world run_script start_inhibitors host_call register_entity subscribe_command
    publish_state ◌==◌
started = refl
