-- ===== src/FanControl/Control/Switching.antt =====
-- What a command to the fan profiles' entity does.
use home_pc_agent.Common.{
  Bool, true, false, ◌&&◌, ◌||◌, Option, none, some, Text, Dict, lookup, Err, Result, Value, text,
  is_empty, is_none, ◌≡◌, ◌≢◌, refl, arith, switch_after_start, switch_through_ipc,
}
use home_pc_agent.Entity.{option_value, option_name, online, unavailable}
use home_pc_agent.Mqtt.Topics.{to_lower}
use home_pc_agent.Core.Scope.{World, publish_state, set_availability}
use home_pc_agent.Selects.{string_payload}
use home_pc_agent.Selects.Options.{chosen_exists}
use home_pc_agent.FanControl.Names.{base_name}
use home_pc_agent.FanControl.Profiles.{Profile, Library, base, config_name_of, options}
use home_pc_agent.FanControl.Control.{
  entity_id, Opened, connected, not_there, open_failed, Answers, wrap, start_process_unless,
  after_wait, after_launch, start_fan_control_and_load, load_through, switch_profile, switched,
  shown_after, handle_command, switch_payload,
}

-- whether LoadConfig is called
abbrev reached : Bool → Option Err → Option Err → Opened → Bool
reached running launched waited connected = true
reached running launched waited not_there = (running || is_none launched) && is_none waited
reached running launched waited (open_failed e) = false

abbrev pub reaches : Answers → Bool
reaches a = reached a.running a.launched a.waited a.opened

wrap-none : (f : Err → Err) (e : Option Err) → is_none (wrap f e) ≡ is_none e
wrap-none f none = refl
wrap-none f (some e) = refl

after_wait-none :
    (a : Answers) (name : Text) (waited : Option Err)
    → is_none (after_wait a name waited) ≡ (is_none waited && is_none (a.loads name))
after_wait-none a name none = wrap-none switch_after_start (a.loads name)
after_wait-none a name (some e) = refl

after_launch-none :
    (a : Answers) (name : Text) (running : Bool) (launched : Option Err)
    → is_none (after_launch a name (start_process_unless running launched))
      ≡ ((running || is_none launched) && is_none a.waited && is_none (a.loads name))
after_launch-none a name true launched = after_wait-none a name a.waited
after_launch-none a name false none = after_wait-none a name a.waited
after_launch-none a name false (some e) = refl

load_through-none :
    (a : Answers) (name : Text) (opened : Opened)
    → is_none (load_through a name opened)
      ≡ (reached a.running a.launched a.waited opened && is_none (a.loads name))
unfolding start_fan_control_and_load
load_through-none a name connected = wrap-none switch_through_ipc (a.loads name)
load_through-none a name not_there = after_launch-none a name a.running a.launched
load_through-none a name (open_failed e) = refl

module _ (l : Library) where
  base-has_text : (path : Text) → is_empty (base l path) ≡ false
  unfolding base_name
  base-has_text path = ground arith

  config_name_of-has_text :
      (id : Text) (p : Profile) → is_empty id ≡ false → is_empty (config_name_of l id p) ≡ false
  unfolding config_name_of
  config_name_of-has_text id p h =
      ground (arith, h, base-has_text p.source_path, base-has_text p.config_name)

  -- Switching to a profile succeeds exactly if the pipe is reached, where FanControl is started if
  -- it is not there, and FanControl loads the file of the profile: the one that is configured, or
  -- that of its path, or the profile's own key. (The key is not empty.)
  pub switch_profile-loads :
      (a : Answers) (profiles : Dict Profile) (id : Text) (p : Profile)
      → is_empty id ≡ false
      → lookup id profiles ≡ some p
      → is_none (switch_profile l a profiles id)
        ≡ (reaches a && is_none (a.loads (config_name_of l id p)))
  unfolding switch_profile
  switch_profile-loads a profiles id p n h =
      rw (h, config_name_of-has_text id p n) (load_through-none a (config_name_of l id p) a.opened)

  option_exists :
      (profiles : Dict Profile) (shown key : Text)
      → option_value (options l profiles) shown ≡ some key
      → (p : Profile) × (lookup key profiles ≡ some p)
  unfolding options
  option_exists profiles shown key h =
      chosen_exists (λ (p : Profile). p.name) (to_lower l.lower_other) profiles shown key h

  abbrev named : Dict Profile → Option Text → Option Text
  named profiles none = none
  named profiles (some shown) = option_value (options l profiles) shown

  -- the key that a command's payload names
  abbrev pub names_option : Dict Profile → Value → Option Text
  names_option profiles payload = named profiles (string_payload payload)

  -- what comes of a chosen profile, by the error of switchProfile and by what is then active
  abbrev pub Switches :
      Dict Profile → Answers → Result Text → Text → World → World × Option Err → Type 0
  Switches profiles a active key w outcome =
      (p : Profile) × (lookup key profiles ≡ some p)
      × (switch_profile l a profiles key ≡ none
          → outcome
            ≡ publish_state entity_id
                (text (option_name (options l profiles) (shown_after l key active)))
                (set_availability entity_id online w).0)
      × ((e : Err)
          → switch_profile l a profiles key ≡ some e
          → outcome ≡ ((set_availability entity_id unavailable w).0, some e))

  handle_named :
      (profiles : Dict Profile) (a : Answers) (active : Result Text) (payload : Option Text)
      (w : World)
      → (named profiles payload ≡ none
          → ((switch_payload l profiles a active payload w).0 ≡ w)
            × ((switch_payload l profiles a active payload w).1 ≢ none))
        × ((key : Text)
            → named profiles payload ≡ some key
            → Switches profiles a active key w (switch_payload l profiles a active payload w))
  unfolding switched
  handle_named profiles a active none w = ((λ h. (refl, λ e. cc)), (λ key h. absurd (ground arith)))
  handle_named profiles a active (some shown) w = (
    (λ h. rw (h) (refl, λ e. cc)),
    (λ key h.
        let (p, found) = option_exists profiles shown key h in
        (p, found, (λ r. rw (h, r) refl), (λ e r. rw (h, r) refl))),
  )

  -- A command that is no string or names no option fails and keeps the world. One that names an
  -- option has a profile to switch to. If the switch succeeds, the entity is online and shows the
  -- profile that is then found active, or the chosen one if none is; if it fails, the entity is
  -- unavailable and the command returns the switch's error.
  pub handle_command-Shows :
      (profiles : Dict Profile) (a : Answers) (active : Result Text) (payload : Value) (w : World)
      → (names_option profiles payload ≡ none
          → ((handle_command l profiles a active payload w).0 ≡ w)
            × ((handle_command l profiles a active payload w).1 ≢ none))
        × ((key : Text)
            → names_option profiles payload ≡ some key
            → Switches profiles a active key w (handle_command l profiles a active payload w))
  unfolding handle_command
  handle_command-Shows profiles a active payload w =
      handle_named profiles a active (string_payload payload) w
