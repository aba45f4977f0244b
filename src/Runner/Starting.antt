-- ===== src/Runner/Starting.antt =====
-- internal/plugins/runner/runner.go: Start, as a script of host calls, and the runtimes it leaves. What
-- discoverOptions and runGetter return is an argument.
pub mod Serving
use home_pc_agent.Common.{
  Bool, true, false, ◌&&◌, Option, none, some, List, [], ◌∷◌, ◌++◌, Text, codes, ◌==◌, Dict, lookup,
  insert, delete, keys, sort, Err, Result, ok, err, nothing_available, setting_error, positive,
  is_empty, is_some, if◌then◌else◌,
}
use home_pc_agent.Entity.{Entity, online}
use home_pc_agent.Core.Router.{Handler}
use home_pc_agent.Core.Scope.{
  Script, finish, call, registers_entity, subscribes_command, publishes_state, sets_availability,
  goes,
}
use home_pc_agent.Inhibit.{unless_error}
use home_pc_agent.Runner.Settings.{
  Param, OptionSettings, Action, Getter, resolved_entity_id, has_options_getter,
  uses_getter_refresh,
}
use home_pc_agent.Runner.Options.{build_entity}
use home_pc_agent.Runner.States.{Runtime, options_of, Library, first_envelope}

-- What is decided of an action before its entity is built. A runtime that is refused ends Start.
pub data Ready : Type 0 where
  skipped : Ready
  refused : Runtime → Err → Ready
  ready : Runtime → Ready

abbrev pub skip_or : Runtime → Err → Ready
skip_or r e = if r.action.optional then skipped else refused r e

unfoldable pub runtime_ready : Runtime → Ready
unfolding ◌==◌
runtime_ready r =
    if r.action.kind == codes "select" && is_empty (options_of r)
    then skip_or r (nothing_available r.action_key)
    else ready r

abbrev pub runtime_of : Text → Action → Dict OptionSettings → Runtime
unfolding resolved_entity_id
runtime_of key a options = record {
  action = a;
  action_key = key;
  entity_id = resolved_entity_id key a;
  discovered = options;
}

-- by what discoverOptions returns
unfoldable pub action_ready : Text → Action → Result (Dict OptionSettings) → Ready
unfolding runtime_ready resolved_entity_id
action_ready key a (err e) = skip_or (runtime_of key a []) (setting_error key e)
action_ready key a (ok options) = runtime_ready (runtime_of key a options)

abbrev pub goes_if : Bool → Text → Script → Script
goes_if false name next = next
goes_if true name next = call (goes name true) (λ _. next)

abbrev pub options_refresh : Option Getter → Bool
options_refresh none = false
options_refresh (some g) = is_some (positive g.refresh)

module _ (l : Library) (handler : Text → Handler) (getter : Runtime → Result Param) where
  -- the tasks that read the state and the options again
  unfoldable pub start_refreshes : Runtime → Script → Script
  unfolding uses_getter_refresh has_options_getter
  start_refreshes r next = goes_if (uses_getter_refresh r.action) (codes "getter-" ++ r.entity_id) (
      goes_if (has_options_getter r.action && options_refresh r.action.options_getter)
        (codes "options-" ++ r.entity_id) next)

  -- publishInitialState's error is only logged
  abbrev pub offer : Runtime → Script → Result Entity → Script
  offer r next (err e) = finish (some e)
  offer r next (ok entity) = call (registers_entity entity) (
      unless_error (
        call (subscribes_command r.entity_id (some (handler r.entity_id))) (
          unless_error (
            call (sets_availability r.entity_id online) (
              unless_error (
                call (publishes_state r.entity_id (first_envelope l r.action (getter r)))
                  (λ _. start_refreshes r next)))))))

  abbrev pub start_ready : Ready → Script → Script
  start_ready skipped next = next
  start_ready (refused r e) next = finish (some e)
  start_ready (ready r) next = offer r next (build_entity r.entity_id r.action (options_of r))

  -- a key of the map is there
  abbrev pub start_found :
      Text → (Text → Result (Dict OptionSettings)) → Option Action → Script → Script
  start_found key discover none next = next
  start_found key discover (some a) next = start_ready (action_ready key a (discover key)) next

  -- the loop of Start, over the keys
  unfoldable pub start_actions :
      (Text → Result (Dict OptionSettings)) → Dict Action → List Text → Script
  unfolding action_ready build_entity first_envelope start_refreshes lookup
  start_actions discover actions [] = finish none
  start_actions discover actions (key ∷ rest) =
      let next = start_actions discover actions rest in
      start_found key discover (lookup key actions) next

  unfoldable pub start_runner : (Text → Result (Dict OptionSettings)) → Dict Action → Script
  unfolding start_actions sort keys
  start_runner discover actions = start_actions discover actions (sort (keys actions))

-- p.runtimes after the round of an action: Start writes the runtime before it discovers the options,
-- and deletes it only if the action is skipped
unfoldable pub keep_runtime : Text → Ready → Dict Runtime → Dict Runtime
unfolding insert delete
keep_runtime id skipped runtimes = delete id runtimes
keep_runtime id (refused r e) runtimes = insert id r runtimes
keep_runtime id (ready r) runtimes = insert id r runtimes

abbrev pub is_refused : Ready → Bool
is_refused (refused r e) = true
is_refused _ = false

abbrev pub keep_found :
    (Text → Result (Dict OptionSettings)) → Text → Option Action → Dict Runtime → Dict Runtime
keep_found discover key none runtimes = runtimes
keep_found discover key (some a) runtimes =
    keep_runtime (resolved_entity_id key a) (action_ready key a (discover key)) runtimes

abbrev pub ends_at : (Text → Result (Dict OptionSettings)) → Text → Option Action → Bool
ends_at discover key none = false
ends_at discover key (some a) = is_refused (action_ready key a (discover key))

-- p.runtimes after Start has gone over these keys, or as far as the first that is refused
unfoldable pub runtimes_after :
    (Text → Result (Dict OptionSettings)) → Dict Action → List Text → Dict Runtime → Dict Runtime
unfolding keep_runtime action_ready resolved_entity_id lookup
runtimes_after discover actions [] runtimes = runtimes
runtimes_after discover actions (key ∷ rest) runtimes =
    let kept = keep_found discover key (lookup key actions) runtimes in
    let later = runtimes_after discover actions rest kept in
    if ends_at discover key (lookup key actions) then kept else later
