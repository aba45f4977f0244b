-- ===== src/Plugins.antt =====
-- internal/core/plugin_manager.go, with the factories of internal/core/plugin/plugin.go: starting
-- the enabled plugins in the order of their ids, and stopping the running ones in reverse.
pub mod Rollback
pub mod Startup
pub mod AllOrNothing
pub mod Frame
use mathlib.Core.List.{reverse}
use home_pc_agent.Common.{
  Bool, true, false, Option, none, some, List, [], ◌∷◌, Text, Dict, lookup, insert, delete, keys,
  Err, Result, ok, err, external, already_running, create_plugin, start_plugin, stop_plugin,
  cleanup_plugin, join_errors, or_else, sort, Value, Fields, if◌then◌else◌, is_some, has,
}
use home_pc_agent.Config.{plugin_raw, plugin_enabled}
use home_pc_agent.Core.Registry.{Registry}
use home_pc_agent.Core.Router.{Router}
use home_pc_agent.Core.Scope.{Scope, World, Script, WaitEnd, new_scope, run_script, close_scope}

-- A built plugin: what its Start does with the host, what its Stop returns, and how the wait for
-- its tasks ends.
pub record Plugin : Type 0 where
  pub start : Script
  pub stop : Option Err
  pub wait : WaitEnd

-- `build` is none for a nil Build function; it gets the plugin's section of the configuration.
pub record Factory : Type 0 where
  pub id : Text
  pub build : Option (Option Fields → Result Plugin)

-- Factory.New
unfoldable pub new_plugin : Factory → Option Fields → Result Plugin
new_plugin f raw = elim f.build [ none ↦ err (external f.id) | some build ↦ build raw ]

pub record Running : Type 0 where
  pub plugin : Plugin
  pub scope : Scope

pub record Manager : Type 0 where
  pub factories : Dict Factory
  pub sections : Dict Value
  pub registry : Registry
  pub router : Router
  pub running : Dict Running

-- NewPluginManager: a later factory with the same id replaces an earlier one.
unfoldable pub factory_map : List Factory → Dict Factory → Dict Factory
unfolding insert
factory_map [] m = m
factory_map (f ∷ fs) m = factory_map fs (insert f.id f m)

-- the manager's view of one scope
abbrev pub world : Manager → Scope → World
world m s = record { registry = m.registry; router = m.router; scope = s }

abbrev pub with_world : Manager → World → Manager
with_world m w = record m { registry = w.registry; router = w.router }

abbrev pub wrapped : (Err → Err) → Option Err → Option Err
wrapped f none = none
wrapped f (some e) = some (f e)

-- one round of the loop of Stop: the plugin's error, the scope's error, and the new manager
unfoldable pub stop_one : Text → Running → Manager → Manager × Option Err
unfolding close_scope delete
stop_one id r m =
    let (w, scope_error) = close_scope r.plugin.wait (world m r.scope) in
    (
      record m { registry = w.registry; router = w.router; running = delete id m.running },
      or_else (wrapped (stop_plugin id) r.plugin.stop) (wrapped (cleanup_plugin id) scope_error),
    )

abbrev pub stop_found : Text → Option Running → Manager → Manager × Option Err
stop_found id none m = (m, none)
stop_found id (some r) m = stop_one id r m

unfoldable pub stop_loop : List Text → Manager → Manager × Option Err
unfolding stop_one lookup
stop_loop [] m = (m, none)
stop_loop (id ∷ ids) m =
    let (m', first) = stop_found id (lookup id m.running) m in
    let (m'', later) = stop_loop ids m' in (m'', or_else first later)

unfoldable pub stop : Manager → Manager × Option Err
unfolding stop_loop sort keys
stop m = stop_loop (reverse (sort (keys m.running))) m

-- a failure in Start stops everything and joins the errors
unfoldable pub abort : Err → Option Err → Manager → Manager × Option Err
unfolding stop
abort e scope_error m =
    let (m', stop_error) = stop m in (m', join_errors (join_errors (some e) scope_error) stop_error)

pub data Round : Type 0 where
  skipped : Round
  failed : Manager × Option Err → Round
  started : Manager → Round

-- what follows the plugin's Start: the plugin is recorded, or its scope closed and all stopped
unfoldable pub settle : Text → Plugin → Manager → World → Option Err → Round
unfolding abort close_scope insert
settle id p m w none = started (record m {
  registry = w.registry;
  router = w.router;
  running = insert id (record { plugin = p; scope = w.scope }) m.running;
})
settle id p m w (some e) =
    let (w', scope_error) = close_scope p.wait w in
    failed (abort (start_plugin id e) scope_error (with_world m w'))

-- the plugin is built: run its Start in a new scope
unfoldable pub launch : Text → Plugin → Manager → Round
unfolding settle new_scope
launch id p m =
    let (w, error) = run_script p.start (world m (new_scope id)) in settle id p m w error

unfoldable pub built : Text → Result Plugin → Manager → Round
unfolding launch abort
built id (err e) m = failed (abort (create_plugin id e) none m)
built id (ok p) m = launch id p m

unfoldable pub try_factory : Text → Option Factory → Manager → Round
unfolding built
try_factory id none m = skipped
try_factory id (some f) m = built id (new_plugin f (plugin_raw id m.sections)) m

-- one round of the loop of Start; the ids come from the factories, so one is always found
unfoldable pub round : Text → Manager → Round
unfolding try_factory lookup
round id m =
    if plugin_enabled id m.sections
    then (if has id m.running
        then failed (m, some (already_running id))
        else try_factory id (lookup id m.factories) m)
    else skipped

abbrev pub continue : (Manager → Manager × Option Err) → Manager → Round → Manager × Option Err
continue rest m skipped = rest m
continue rest m (failed result) = result
continue rest m (started m') = rest m'

unfoldable pub start_loop : List Text → Manager → Manager × Option Err
unfolding round
start_loop [] m = (m, none)
start_loop (id ∷ ids) m = continue (start_loop ids) m (round id m)

unfoldable pub start : Manager → Manager × Option Err
unfolding start_loop sort keys
start m = start_loop (sort (keys m.factories)) m
