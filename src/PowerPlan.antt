-- ===== src/PowerPlan.antt =====
-- internal/plugins/powerplan/powerplan.go: the select entity of Windows power plans. `lower_other` is
-- unicode.ToLower outside ASCII, `fold_other` maps a code point outside ASCII to the least of those
-- that strings.EqualFold takes for it. What powercfg.exe answers is an argument.
pub mod Discovery
pub mod Merging
pub mod Choosing
use home_pc_agent.Common.{
  ℕ, Bool, true, false, not, ◌&&◌, ◌||◌, Option, none, some, List, [], ◌∷◌, ◌++◌, map, Text, codes,
  ◌==◌, Dict, lookup, insert, keys, Err, Result, ok, err, ◌>>=◌, string_option_required,
  nothing_available, unknown_option, item_gone, bad_mode_key, bad_mode, discover_failed, set_failed,
  Value, text, trim, includes, drop_char, take, length, is_lower, is_digit, nat_eq, leb, all,
  is_empty, if◌then◌else◌,
}
use home_pc_agent.Entity.{Choice, option_value, option_name, unavailable, online}
use home_pc_agent.Mqtt.Topics.{to_lower, replace_runs, is_underscore}
use home_pc_agent.Selects.{sort_choices, equal_fold, unique_key, select_entity, string_payload}
use home_pc_agent.Core.Router.{Handler}
use home_pc_agent.Core.Scope.{
  World, publish_state, set_availability, Script, finish, call, registers_entity,
  subscribes_command, publishes_state, sets_availability, goes,
}
use home_pc_agent.Inhibit.{unless_error}

pub record Mode : Type 0 where
  pub name : Text
  pub guid : Text

pub record Config : Type 0 where
  pub enabled : Bool
  pub modes : Dict Mode
  pub timeout : ℕ

-- in nanoseconds, as time.Duration counts
unfoldable pub with_defaults : Config → Config
with_defaults c = if nat_eq c.timeout 0 then record c { timeout = 10_000_000_000 } else c

abbrev pub key_char : ℕ → Bool
key_char c = is_lower c || is_digit c

-- `^[a-z0-9][a-z0-9_-]*$`
unfoldable pub key_matches : Text → Bool
unfolding all
key_matches [] = false
key_matches (c ∷ s) = key_char c && all (λ d. key_char d || nat_eq d b'_' || nat_eq d b'-') s

abbrev pub first_bad : Text → Bool → Option Err → Option Err → Option Err
first_bad key false fields rest = some (bad_mode_key key)
first_bad key true (some e) rest = some (bad_mode key e)
first_bad key true none rest = rest

-- `check` is validation.ValidateStruct with the two required fields
unfoldable pub validate_modes : (Mode → Option Err) → Dict Mode → Option Err
unfolding key_matches
validate_modes check [] = none
validate_modes check ((key, mode) ∷ modes) =
    first_bad key (key_matches key) (check mode) (validate_modes check modes)

abbrev pub config_or_error : Config → Option Err → Result Config
config_or_error c none = ok c
config_or_error c (some e) = err e

-- the preparation that NewFactory passes to ConfigFactory
unfoldable pub prepare : (Mode → Option Err) → Config → Result Config
unfolding with_defaults validate_modes
prepare check c =
    let c' = with_defaults c in
    if c'.enabled then config_or_error c' (validate_modes check c'.modes) else ok c'

abbrev pub entity_id : Text
entity_id = codes "powerplan.mode"

module _ (lower_other fold_other : ℕ → ℕ) where
  abbrev pub lower : Text → Text
  lower = to_lower lower_other

  unfoldable pub has_mode_guid : Dict Mode → Text → Bool
  unfolding equal_fold
  has_mode_guid [] guid = false
  has_mode_guid ((_, mode) ∷ modes) guid =
      equal_fold fold_other mode.guid guid || has_mode_guid modes guid

  -- A discovered GUID is ASCII, so that its first 8 bytes are its first 8 characters.
  unfoldable pub short_guid : Text → Text
  unfolding to_lower drop_char take
  short_guid guid =
      let plain = drop_char b'-' (to_lower lower_other guid) in
      if leb 8 (length plain)
      then take 8 plain
      else if is_empty plain
      then codes "unknown"
      else plain

  -- modeKeyUnsafe.ReplaceAllString(strings.ToLower(name), "_"), and strings.Trim
  unfoldable pub key_base : Text → Text → Text
  unfolding to_lower replace_runs trim short_guid
  key_base name guid =
      let base = trim is_underscore (replace_runs key_char false (to_lower lower_other name)) in
      if is_empty base then codes "plan_" ++ short_guid guid else base

  unfoldable pub unique_mode_key : Dict Mode → Text → Text → Text
  unfolding keys unique_key key_base short_guid
  unique_mode_key modes name guid = unique_key (keys modes) (key_base name guid) (short_guid guid)

  unfoldable pub merge_discovered_modes : Dict Mode → List Mode → Dict Mode
  unfolding has_mode_guid unique_mode_key insert
  merge_discovered_modes modes [] = modes
  merge_discovered_modes modes (mode ∷ discovered) =
      let skipped = merge_discovered_modes modes discovered in
      let key = unique_mode_key modes mode.name mode.guid in
      let added = merge_discovered_modes (insert key mode modes) discovered in
      if has_mode_guid modes mode.guid then skipped else added

  -- `discovered` is what discoverPowerPlans returns
  unfoldable pub resolve_modes : Dict Mode → Result (List Mode) → Result (Dict Mode)
  unfolding merge_discovered_modes
  resolve_modes modes (err e) =
      if is_empty modes then err (discover_failed (codes "power plans") e) else ok modes
  resolve_modes modes (ok discovered) = ok (merge_discovered_modes modes discovered)

  abbrev pub choices : Dict Mode → List Choice
  choices = map (λ (entry : Text × Mode). record { value = entry.0; name = entry.1.name })

  unfoldable pub options : Dict Mode → List Choice
  unfolding sort_choices to_lower
  options modes = sort_choices lower (choices modes)

  -- the loop of activeMode, over the lowered output; the first mode that matches
  unfoldable pub matching_mode : Text → Dict Mode → Text
  unfolding includes to_lower
  matching_mode output [] = []
  matching_mode output ((key, mode) ∷ modes) =
      if includes output (to_lower lower_other mode.guid) then key else matching_mode output modes

  unfoldable pub active_mode : Dict Mode → Result Text → Result Text
  unfolding matching_mode to_lower
  active_mode modes output =
      output >>= λ bytes. ok (matching_mode (to_lower lower_other bytes) modes)

  -- the state that publishActiveState publishes, if any
  abbrev pub active_state : List Choice → Result Text → Option Value
  active_state shown (err e) = none
  active_state shown (ok active) =
      if is_empty active then none else some (text (option_name shown active))

  abbrev pub publish_if : Option Value → World → World
  publish_if none w = w
  publish_if (some state) w = (publish_state entity_id state w).0

  unfoldable pub publish_active_state : List Choice → Dict Mode → Result Text → World → World
  unfolding active_mode option_name publish_state
  publish_active_state shown modes output w =
      publish_if (active_state shown (active_mode modes output)) w

  -- the rounds of startStateRefresh, by what powercfg answers in each
  unfoldable pub state_refresh : List Choice → Dict Mode → List (Result Text) → World → World
  unfolding publish_active_state
  state_refresh shown modes [] w = w
  state_refresh shown modes (output ∷ outputs) w =
      state_refresh shown modes outputs (publish_active_state shown modes output w)

  -- the end of handleCommand, by the error of `powercfg.exe /S`
  unfoldable pub switched : Dict Mode → Text → Option Err → World → World × Option Err
  unfolding set_availability publish_state options option_name
  switched modes key (some e) w =
      ((set_availability entity_id unavailable w).0, some (set_failed key e))
  switched modes key none w =
      publish_state entity_id (text (option_name (options modes) key))
        (set_availability entity_id online w).0

  abbrev pub switch_found :
      Dict Mode → (Text → Option Err) → Text → Option Mode → World → World × Option Err
  switch_found modes run key none w = (w, some (item_gone (codes "power plan") key))
  switch_found modes run key (some mode) w = switched modes key (run mode.guid) w

  abbrev pub switch_chosen :
      Dict Mode → (Text → Option Err) → Text → Option Text → World → World × Option Err
  switch_chosen modes run shown none w = (w, some (unknown_option (codes "power plan") shown))
  switch_chosen modes run shown (some key) w = switch_found modes run key (lookup key modes) w

  abbrev pub switch_payload :
      Dict Mode → (Text → Option Err) → Option Text → World → World × Option Err
  switch_payload modes run none w = (w, some (string_option_required (codes "powerplan")))
  switch_payload modes run (some shown) w =
      switch_chosen modes run shown (option_value (options modes) shown) w

  -- `run` is `powercfg.exe /S` with a GUID
  unfoldable pub handle_command :
      Dict Mode → (Text → Option Err) → Value → World → World × Option Err
  unfolding switched lookup option_value options
  handle_command modes run payload w = switch_payload modes run (string_payload payload) w

  abbrev pub publishes : Option Value → Script → Script
  publishes none next = next
  publishes (some state) next = call (publishes_state entity_id state) (λ _. next)

  -- Start after resolveModes; `output` is what powercfg answers to the first publishActiveState
  abbrev pub offer : Dict Mode → Handler → Result Text → Script
  offer modes handler output =
      call
        (registers_entity
          (select_entity entity_id (codes "Power Plan") (options modes) (codes "mdi:power-plug")))
        (unless_error (
          call (subscribes_command entity_id (some handler)) (
            unless_error (
              call (sets_availability entity_id online) (
                unless_error (
                  publishes (active_state (options modes) (active_mode modes output))
                    (call (goes (codes "state-refresh") true) (λ _. finish none))))))))

  abbrev pub start_resolved : Handler → Result Text → Result (Dict Mode) → Script
  start_resolved handler output (err e) = finish (some e)
  start_resolved handler output (ok []) = finish (some (nothing_available (codes "power plans")))
  start_resolved handler output (ok (entry ∷ modes)) = offer (entry ∷ modes) handler output

  unfoldable pub start_power_plan : Dict Mode → Result (List Mode) → Handler → Result Text → Script
  unfolding resolve_modes options active_mode option_name
  start_power_plan configured discovered handler output =
      start_resolved handler output (resolve_modes configured discovered)
