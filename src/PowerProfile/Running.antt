-- ===== src/PowerProfile/Running.antt =====
-- internal/plugins/powerprofile_ppd/powerprofile_ppd.go: D-Bus signals, the watcher's loop, commands, and
-- the plugin's Start as a script of host calls.
pub mod Commands
pub mod Keeping
use home_pc_agent.Common.{
  ℕ, Bool, true, false, ◌&&◌, ◌||◌, Option, none, some, List, [], ◌∷◌, Text, codes, ◌==◌, contains,
  Dict, Err, Result, ok, err, ◌>>=◌, string_option_required, unknown_option, set_failed,
  service_unavailable, read_failed, connect_system_bus, watch_failed, Value, text, is_empty,
  or_else, if◌then◌else◌,
}
use home_pc_agent.Entity.{Choice, option_value, option_name, online, unavailable}
use home_pc_agent.Selects.{string_payload}
use home_pc_agent.Core.Router.{Handler}
use home_pc_agent.Core.Scope.{
  Script, finish, call, registers_entity, subscribes_command, publishes_state, sets_availability,
  goes,
}
use home_pc_agent.Inhibit.{unless_error}
use home_pc_agent.PowerProfile.{
  Service, services, placeholder_profiles, Property, Snapshot, Loaded, answered, unanswered, load,
  Plugin, entity_id, profile_entity, profile_options, publish_active, apply_loaded, apply_changes,
}

-- A signal by its name, with its body if it can be stored.
pub data Signal : Type 0 where
  owner_changed : Text → Signal
  properties_changed : Text → Text → Dict Property → List Text → Signal
  malformed other_signal : Signal

-- what the watcher's select takes
pub data Turn : Type 0 where
  context_done signals_closed tick : Turn
  received : Signal → Turn

unfoldable pub is_service_name : List Service → Text → Bool
unfolding ◌==◌
is_service_name [] name = false
is_service_name (svc ∷ svcs) name = svc.name == name || is_service_name svcs name

module _ (lower : Text → Text) where
  -- reload, with what the services answer to GetAll
  abbrev pub reload : (Service → Result (Dict Property)) → Plugin → Plugin
  reload get_all p = apply_loaded lower (load get_all) p

  unfoldable pub handle_signal : (Service → Result (Dict Property)) → Signal → Plugin → Plugin
  unfolding is_service_name apply_loaded load apply_changes contains
  handle_signal get_all (owner_changed name) p =
      if is_service_name services name then reload get_all p else p
  handle_signal get_all (properties_changed path interface_name changed invalidated) p =
      if contains invalidated (codes "ActiveProfile") || contains invalidated (codes "Profiles")
      then reload get_all p
      else apply_changes lower path interface_name changed p
  handle_signal get_all malformed p = p
  handle_signal get_all other_signal p = p

  abbrev pub retry : (Service → Result (Dict Property)) → Option Service → Plugin → Plugin
  retry get_all none p = reload get_all p
  retry get_all (some svc) p = p

  -- the loop of watch, with the answers that the services give in each turn
  unfoldable pub watch : List (Turn × (Service → Result (Dict Property))) → Plugin → Plugin
  unfolding handle_signal
  watch [] p = p
  watch ((context_done, get_all) ∷ turns) p = p
  watch ((signals_closed, get_all) ∷ turns) p = p
  watch ((received s, get_all) ∷ turns) p = watch turns (handle_signal get_all s p)
  watch ((tick, get_all) ∷ turns) p = watch turns (retry get_all p.service p)

  abbrev pub chosen_id : Text → Service → Option Text → Result (Service × Text)
  chosen_id shown svc none = err (unknown_option (codes "power profile") shown)
  chosen_id shown svc (some id) = ok (svc, id)

  abbrev pub chosen_of : Text → List Choice → Option Service → Result (Service × Text)
  chosen_of shown options none = err service_unavailable
  chosen_of shown options (some svc) = chosen_id shown svc (option_value options shown)

  abbrev pub chosen_payload : Option Text → Plugin → Result (Service × Text)
  chosen_payload none p = err (string_option_required (codes "powerprofile"))
  chosen_payload (some shown) p = chosen_of shown p.options p.service

  -- handleCommand up to its D-Bus calls
  unfoldable pub choose : Value → Plugin → Result (Service × Text)
  unfolding option_value
  choose payload p = chosen_payload (string_payload payload) p

  abbrev pub is_same : Service → Option Service → Bool
  is_same svc none = false
  is_same svc (some current) = svc.name == current.name

  abbrev pub publish_read : Service → Result Text → Plugin → Plugin
  publish_read svc (err e) p = p
  publish_read svc (ok active) p = if is_same svc p.service then publish_active active p else p

  abbrev pub command_error : Text → Option Err → Result Text → Option Err
  command_error id (some e) read = some (set_failed id e)
  command_error id none (err e) = some (read_failed (codes "active power profile") e)
  command_error id none (ok active) = none

  -- handleCommand from its D-Bus calls: the error of Set, what Get answers, and the plugin as it is
  -- after them
  unfoldable pub finish_command :
      Service → Text → Option Err → Result Text → Plugin → Plugin × Option Err
  unfolding publish_active ◌==◌
  finish_command svc id set_error read p =
      (publish_read svc read p, command_error id set_error read)

  abbrev pub command_chosen :
      (Service → Text → Option Err)
      → (Service → Result Text)
      → (Plugin → Plugin)
      → Plugin
      → Result (Service × Text)
      → Plugin × Option Err
  command_chosen sets gets meanwhile p (err e) = (p, some e)
  command_chosen sets gets meanwhile p (ok (svc, id)) =
      finish_command svc id (sets svc id) (gets svc) (meanwhile p)

  -- `meanwhile` is what the watcher does while the calls are under way, the mutex being free
  unfoldable pub handle_command :
      (Service → Text → Option Err)
      → (Service → Result Text)
      → (Plugin → Plugin)
      → Value
      → Plugin
      → Plugin × Option Err
  unfolding choose finish_command
  handle_command sets gets meanwhile payload p =
      command_chosen sets gets meanwhile p (choose payload p)

  -- the loop of Start over the services: the errors of the two AddMatchSignalContext
  unfoldable pub watch_error : (Service → Option Err × Option Err) → List Service → Option Err
  watch_error matches [] = none
  watch_error matches (svc ∷ svcs) =
      let later = watch_error matches svcs in
      elim (matches svc).0 [
        | some e ↦ some (watch_failed svc.name e)
        | none ↦ elim (matches svc).1 [ some e ↦ some (watch_failed svc.name e) | none ↦ later ]
      ]

  abbrev pub first_profiles : Loaded → List Text
  first_profiles (answered svc snap) = snap.profiles
  first_profiles (unanswered errs) = placeholder_profiles

  abbrev pub publishes : List Choice → Text → Script → Script
  publishes options [] next = next
  publishes options (c ∷ active) next =
      call (publishes_state entity_id (text (option_name options (c ∷ active)))) (λ _. next)

  -- applySnapshotLocked of Start, whose options are already those of the snapshot
  abbrev pub first_state : Loaded → List Choice → Script → Script
  first_state (answered svc snap) options next =
      call (sets_availability entity_id online) (λ _. publishes options snap.active next)
  first_state (unanswered errs) options next =
      call (sets_availability entity_id unavailable) (λ _. next)

  abbrev pub offer : Handler → Loaded → List Choice → Script
  offer handler loaded options = call (registers_entity (profile_entity options)) (
      unless_error (
        call (subscribes_command entity_id (some handler)) (
          unless_error (
            first_state loaded options
              (call (goes (codes "ppd-signals") true) (λ _. finish none))))))

  -- `connected` is the error of the system bus
  unfoldable pub start_ppd :
      Option Err → (Service → Option Err × Option Err) → Handler → Loaded → Script
  unfolding watch_error profile_options option_name
  start_ppd connected matches handler loaded = elim connected [
    | some e ↦ finish (some (connect_system_bus e))
    | none ↦ elim (watch_error matches services) [
      | some e ↦ finish (some e)
      | none ↦ offer handler loaded (profile_options lower (first_profiles loaded))
    ]
  ]
