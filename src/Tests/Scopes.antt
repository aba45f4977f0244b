-- ===== src/Tests/Scopes.antt =====
-- Plugins at work through their scopes, and commands that reach them.
use home_pc_agent.Common.{
  true, false, none, some, [], ◌≡◌, ◌≢◌, refl, Text, codes, lookup, contains, ◌==◌, ok,
  if◌then◌else◌, arith, subst, ==_iff,
}
use home_pc_agent.Core.Registry.{get}
use home_pc_agent.Core.Router.{Unsub, subscribe, claim}
use home_pc_agent.Core.Scope.{
  World, Script, finish, call, registers_entity, subscribes_command, new_scope, run_script,
  close_scope, timed_out,
}
use home_pc_agent.Core.Scope.Releases.{held, close_scope_releases}
use home_pc_agent.Core.Scope.Ownership.{Apart, SameAt, run_script-isolated}
use home_pc_agent.Tests.Data.{lamp, mode, accepting, refusing, empty_router, lamp_scope, lamp_world}

-- the lamps' scope beside the one of a plugin that tries to take the lamp
abbrev intruder : Script
intruder = call (registers_entity mode) (λ _.
    call (registers_entity lamp)
      (λ _. call (subscribes_command (codes "a.lamp") (some refusing)) (λ error. finish error)))

abbrev intruder_world : World
unfolding new_scope
intruder_world = record lamp_world { scope = new_scope (codes "intruder") }

lamp_apart :
    (get (codes "a.lamp") intruder_world.registry ≢ none)
    × (contains intruder_world.scope.entity_ids (codes "a.lamp") ≡ false)
unfolding get lookup ◌==◌ contains intruder_world
lamp_apart = (λ h. absurd (ground arith), refl)

apart : Apart lamp_scope intruder_world
unfolding contains
apart k c =
    subst
      (λ j.
        (get j intruder_world.registry ≢ none)
        × (contains intruder_world.scope.entity_ids j ≡ false))
      ((==_iff (codes "a.lamp") k).0 (ground arith)) lamp_apart

run_script-isolated_example :
    let later = (run_script intruder intruder_world).0 in
    Apart lamp_scope later
    × ((k : Text) → contains lamp_scope.entity_ids k ≡ true → SameAt k intruder_world later)
run_script-isolated_example = run_script-isolated intruder intruder_world lamp_scope apart

close_scope_releases_example :
    let w' = (close_scope timed_out lamp_world).0 in
    ((k : Text)
      → get k w'.registry
        ≡ (if contains lamp_world.scope.entity_ids k then none else get k lamp_world.registry))
    × ((k : Text)
        → lookup k w'.router.handlers ≡ (
            if contains (held lamp_world.scope) k
            then none
            else lookup k lamp_world.router.handlers))
    × (w'.scope.closed ≡ true)
    × (w'.scope.context_canceled ≡ true)
    × (w'.scope.entity_ids ≡ [])
    × (w'.scope.unsubs ≡ [])
close_scope_releases_example = close_scope_releases timed_out lamp_world refl

abbrev lamp_unsub : Unsub
lamp_unsub = record { entity_id = codes "a.lamp"; done = false }

subscribe_lamp : (subscribe (codes "a.lamp") (some accepting) empty_router).1 ≡ ok lamp_unsub
unfolding subscribe claim lookup
subscribe_lamp = refl

lamp_taken : lookup (codes "a.lamp") lamp_world.router.handlers ≡ some accepting
unfolding lookup ◌==◌
lamp_taken = refl
