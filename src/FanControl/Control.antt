-- ===== src/FanControl/Control.antt =====
-- internal/plugins/fancontrol/fancontrol.go: switching profiles over FanControl's pipe, finding the one
-- that is active, and the plugin's Start. What the pipe, the processes and the files answer is an
-- argument.
pub mod Switching
pub mod Active
use home_pc_agent.Common.{
  ℕ, Bool, true, false, ◌&&◌, Option, none, some, List, [], ◌∷◌, Text, codes, ◌==◌, Dict, lookup,
  keys, sort, Err, Result, ok, err, ◌>>=◌, string_option_required, nothing_available,
  unknown_option, item_gone, discover_failed, no_config_name, connect_ipc, switch_through_ipc,
  switch_after_start, start_fan_control, wait_for_ipc, ipc_unavailable, start_after, Value, text,
  is_empty, if◌then◌else◌,
}
use home_pc_agent.Entity.{Choice, option_value, option_name, unavailable, online}
use home_pc_agent.Selects.{select_entity, string_payload}
use home_pc_agent.Core.Router.{Handler}
use home_pc_agent.Core.Scope.{
  World, publish_state, set_availability, Script, finish, call, registers_entity,
  subscribes_command, publishes_state, sets_availability, goes,
}
use home_pc_agent.Inhibit.{unless_error}
use home_pc_agent.FanControl.Profiles.{
  Profile, Configs, Library, base, config_name_of, normalize_configured_profiles,
  profile_key_by_config_name, merge_discovered_profiles, options,
}

abbrev pub entity_id : Text
entity_id = codes "fancontrol.profile"

-- what openFanControlIPC comes to
pub data Opened : Type 0 where
  connected not_there : Opened
  open_failed : Err → Opened

-- The answers that a switch meets: the first open; whether the process runs and the error of
-- starting it; the error with which waitForIPC ends; and LoadConfig's error for a name.
pub record Answers : Type 0 where
  pub opened : Opened
  pub running : Bool
  pub launched : Option Err
  pub waited : Option Err
  pub loads : Text → Option Err

abbrev pub wrap : (Err → Err) → Option Err → Option Err
wrap f none = none
wrap f (some e) = some (f e)

abbrev pub start_process_unless : Bool → Option Err → Option Err
start_process_unless true launched = none
start_process_unless false launched = launched

abbrev pub after_wait : Answers → Text → Option Err → Option Err
after_wait a name (some e) = some (wait_for_ipc e)
after_wait a name none = wrap switch_after_start (a.loads name)

abbrev pub after_launch : Answers → Text → Option Err → Option Err
after_launch a name (some e) = some (start_fan_control e)
after_launch a name none = after_wait a name a.waited

unfoldable pub start_fan_control_and_load : Answers → Text → Option Err
start_fan_control_and_load a name = after_launch a name (start_process_unless a.running a.launched)

abbrev pub load_through : Answers → Text → Opened → Option Err
load_through a name connected = wrap switch_through_ipc (a.loads name)
load_through a name not_there = start_fan_control_and_load a name
load_through a name (open_failed e) = some (connect_ipc e)

-- what ListConfigs returns to the first connection, or to the one after a start
unfoldable pub list_configs_with_startup : Answers → Result Configs → Result Configs
list_configs_with_startup a listed = elim a.opened [
  | connected ↦ listed
  | open_failed e ↦ err e
  | not_there ↦ elim (start_process_unless a.running a.launched) [
    | some e ↦ err (start_after ipc_unavailable e)
    | none ↦ elim a.waited [ some e ↦ err e | none ↦ listed ]
  ]
]

-- the loop of activeProfile over the sorted keys; `hash` is fileSHA256
abbrev pub same_hash : Text → Result Text → Bool
same_hash current (err e) = false
same_hash current (ok h) = current == h

abbrev pub has_content : (Text → Result Text) → Text → Option Profile → Bool
has_content hash current none = false
has_content hash current (some p) =
    if is_empty p.source_path then false else same_hash current (hash p.source_path)

unfoldable pub first_with_content : (Text → Result Text) → Text → Dict Profile → List Text → Text
unfolding lookup ◌==◌
first_with_content hash current profiles [] = []
first_with_content hash current profiles (key ∷ rest) =
    let later = first_with_content hash current profiles rest in
    if has_content hash current (lookup key profiles) then key else later

module _ (l : Library) where
  abbrev pub switch_named : Answers → Text → Text → Option Err
  switch_named a id name =
      if is_empty name then some (no_config_name id) else load_through a name a.opened

  abbrev pub switch_found : Answers → Text → Option Profile → Option Err
  switch_found a id none = some (item_gone (codes "FanControl profile") id)
  switch_found a id (some p) = switch_named a id (config_name_of l id p)

  unfoldable pub switch_profile : Answers → Dict Profile → Text → Option Err
  unfolding lookup config_name_of start_fan_control_and_load
  switch_profile a profiles id = switch_found a id (lookup id profiles)

  -- the profile of the configuration that FanControl says is current, or the empty text
  unfoldable pub profile_by_config_name : Dict Profile → Text → Text
  unfolding profile_key_by_config_name
  profile_by_config_name profiles name = profile_key_by_config_name l profiles (base l name)

  abbrev pub current_profile : Dict Profile → Opened → Result Configs → Text
  current_profile profiles connected (ok c) =
      if is_empty c.current_config then [] else profile_by_config_name profiles c.current_config
  current_profile profiles _ _ = []

  abbrev pub by_content : (Text → Result Text) → Dict Profile → Result Text → Result Text
  by_content hash profiles (err e) = err e
  by_content hash profiles (ok current) =
      ok (first_with_content hash current profiles (sort (keys profiles)))

  unfoldable pub active_profile :
      Opened → Result Configs → (Text → Result Text) → Text → Dict Profile → Result Text
  unfolding profile_by_config_name first_with_content sort keys
  active_profile opened listed hash config_path profiles =
      let current = current_profile profiles opened listed in
      if is_empty current then by_content hash profiles (hash config_path) else ok current

  unfoldable pub resolve_profiles : Dict Profile → Result Configs → Result (Dict Profile)
  unfolding normalize_configured_profiles merge_discovered_profiles
  resolve_profiles configured (ok configs) =
      ok (merge_discovered_profiles l (normalize_configured_profiles l configured) configs)
  resolve_profiles configured (err e) =
      let profiles = normalize_configured_profiles l configured in
      if is_empty profiles
      then err (discover_failed (codes "FanControl profiles") e)
      else ok profiles

  -- the profile that handleCommand shows after a switch
  abbrev pub shown_after : Text → Result Text → Text
  shown_after id (err e) = id
  shown_after id (ok active) = if is_empty active then id else active

  -- the end of handleCommand, by switchProfile's error; `active` is what activeProfile returns
  unfoldable pub switched :
      Dict Profile → Text → Result Text → Option Err → World → World × Option Err
  unfolding set_availability publish_state option_name options
  switched profiles id active (some e) w = ((set_availability entity_id unavailable w).0, some e)
  switched profiles id active none w =
      publish_state entity_id (text (option_name (options l profiles) (shown_after id active)))
        (set_availability entity_id online w).0

  abbrev pub switch_chosen :
      Dict Profile → Answers → Result Text → Text → Option Text → World → World × Option Err
  switch_chosen profiles a active shown none w =
      (w, some (unknown_option (codes "FanControl profile") shown))
  switch_chosen profiles a active shown (some id) w =
      switched profiles id active (switch_profile a profiles id) w

  abbrev pub switch_payload :
      Dict Profile → Answers → Result Text → Option Text → World → World × Option Err
  switch_payload profiles a active none w = (w, some (string_option_required (codes "fancontrol")))
  switch_payload profiles a active (some shown) w =
      switch_chosen profiles a active shown (option_value (options l profiles) shown) w

  unfoldable pub handle_command :
      Dict Profile → Answers → Result Text → Value → World → World × Option Err
  unfolding switched switch_profile option_value options
  handle_command profiles a active payload w =
      switch_payload profiles a active (string_payload payload) w

  -- the state that publishActiveState publishes, if any
  abbrev pub active_state : Dict Profile → Result Text → Option Value
  active_state profiles (err e) = none
  active_state profiles (ok active) =
      if is_empty active then none else some (text (option_name (options l profiles) active))

  abbrev pub publish_if : Option Value → World → World
  publish_if none w = w
  publish_if (some state) w = (publish_state entity_id state w).0

  -- the rounds of startStateRefresh, by what activeProfile returns in each
  unfoldable pub state_refresh : Dict Profile → List (Result Text) → World → World
  unfolding publish_state option_name options
  state_refresh profiles [] w = w
  state_refresh profiles (active ∷ later) w =
      state_refresh profiles later (publish_if (active_state profiles active) w)

  abbrev pub publishes : Option Value → Script → Script
  publishes none next = next
  publishes (some state) next = call (publishes_state entity_id state) (λ _. next)

  -- Start after resolveProfiles; SetAvailability's error is not looked at
  abbrev pub offer : Dict Profile → Handler → Result Text → Script
  offer profiles handler active =
      call
        (registers_entity (
          select_entity entity_id (codes "FanControl Profile") (options l profiles)
            (codes "mdi:fan")))
        (unless_error (
          call (subscribes_command entity_id (some handler)) (
            unless_error (
              call (sets_availability entity_id online) (λ _.
                publishes (active_state profiles active)
                  (call (goes (codes "state-refresh") true) (λ _. finish none)))))))

  abbrev pub start_resolved : Handler → Result Text → Result (Dict Profile) → Script
  start_resolved handler active (err e) = finish (some e)
  start_resolved handler active (ok []) =
      finish (some (nothing_available (codes "FanControl profiles")))
  start_resolved handler active (ok (entry ∷ profiles)) = offer (entry ∷ profiles) handler active

  unfoldable pub start_fan_plugin : Dict Profile → Result Configs → Handler → Result Text → Script
  unfolding resolve_profiles options option_name
  start_fan_plugin configured listed handler active =
      start_resolved handler active (resolve_profiles configured listed)
