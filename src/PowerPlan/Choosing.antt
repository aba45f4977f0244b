-- ===== src/PowerPlan/Choosing.antt =====
-- What a command to the power plan's entity does, and which plan is shown as active.
use home_pc_agent.Common.{
  ℕ, true, false, Option, none, some, [], ◌∷◌, Text, ==_iff, Dict, lookup, keys, contains-keys,
  contains, distinct, includes, Err, set_failed, Value, text, ◌≡◌, ◌≢◌, refl, sym, ap, subst, arith,
  Bool-cases, ◌⊎◌, inl, inr,
}
use home_pc_agent.Entity.{option_value, option_name, online, unavailable}
use home_pc_agent.Mqtt.Topics.{to_lower}
use home_pc_agent.Core.Scope.{World, publish_state, set_availability}
use home_pc_agent.Selects.{string_payload}
use home_pc_agent.Selects.Options.{AreOptions, sorted_options-AreOptions, chosen_exists}
use home_pc_agent.PowerPlan.{
  Mode, entity_id, options, switched, handle_command, matching_mode, switch_payload,
}

module _ (lower_other fold_other : ℕ → ℕ) where
  -- The options of the power plans are in the order of their lowered names, then of their keys;
  -- their values are exactly the modes' keys, and none comes twice when no key does.
  pub options-AreOptions :
      (modes : Dict Mode)
      → AreOptions
          (λ (m : Mode). m.name)
          (to_lower lower_other)
          modes
          (options lower_other fold_other modes)
  unfolding options
  options-AreOptions modes =
      sorted_options-AreOptions (λ (m : Mode). m.name) (to_lower lower_other) modes

  -- the key that a command's payload names
  abbrev named : Dict Mode → Option Text → Option Text
  named modes none = none
  named modes (some shown) = option_value (options lower_other fold_other modes) shown

  abbrev pub names_option : Dict Mode → Value → Option Text
  names_option modes payload = named modes (string_payload payload)

  option_exists :
      (modes : Dict Mode) (shown key : Text)
      → option_value (options lower_other fold_other modes) shown ≡ some key
      → (mode : Mode) × (lookup key modes ≡ some mode)
  unfolding options
  option_exists modes shown key h =
      chosen_exists (λ (m : Mode). m.name) (to_lower lower_other) modes shown key h

  -- the chosen mode, and what comes of it by the answer of powercfg
  abbrev pub Switches : Dict Mode → (Text → Option Err) → Text → World → World × Option Err → Type 0
  Switches modes run key w outcome =
      (mode : Mode) × (lookup key modes ≡ some mode)
      × (run mode.guid ≡ none
          → outcome
            ≡ publish_state entity_id
                (text (option_name (options lower_other fold_other modes) key))
                (set_availability entity_id online w).0)
      × ((e : Err)
          → run mode.guid ≡ some e
          → outcome ≡ ((set_availability entity_id unavailable w).0, some (set_failed key e)))

  handle_named :
      (modes : Dict Mode) (run : Text → Option Err) (payload : Option Text) (w : World)
      → (named modes payload ≡ none
          → ((switch_payload lower_other fold_other modes run payload w).0 ≡ w)
            × ((switch_payload lower_other fold_other modes run payload w).1 ≢ none))
        × ((key : Text)
            → named modes payload ≡ some key
            → Switches modes run key w (switch_payload lower_other fold_other modes run payload w))
  unfolding switched
  handle_named modes run none w = ((λ h. (refl, λ e. cc)), (λ key h. absurd (ground arith)))
  handle_named modes run (some shown) w = (
    (λ h. rw (h) (refl, λ e. cc)),
    (λ key h.
        let (mode, found) = option_exists modes shown key h in
        (mode, found, (λ r. rw (h, found, r) refl), (λ e r. rw (h, found, r) refl))),
  )

  -- A command that is no string or names no option fails and keeps the world. One that names an
  -- option has a mode to switch to, which is given to powercfg; if that succeeds, the entity is
  -- online and shows the chosen plan's name, and if it fails, the entity is unavailable.
  pub handle_command-Switches :
      (modes : Dict Mode) (run : Text → Option Err) (payload : Value) (w : World)
      → (names_option modes payload ≡ none
          → ((handle_command lower_other fold_other modes run payload w).0 ≡ w)
            × ((handle_command lower_other fold_other modes run payload w).1 ≢ none))
        × ((key : Text)
            → names_option modes payload ≡ some key
            → Switches modes run key w (handle_command lower_other fold_other modes run payload w))
  unfolding handle_command
  handle_command-Switches modes run payload w = handle_named modes run (string_payload payload) w

  lookup-later :
      (key k : Text) (mode : Mode) (modes : Dict Mode) (m : Mode)
      → contains (keys modes) key ≡ false
      → lookup k modes ≡ some m
      → lookup k ((key, mode) ∷ modes) ≡ some m
  unfolding lookup
  lookup-later key k mode modes m n h =
      ground
        (arith, contains-keys k modes, ==_iff key k, λ (e : key ≡ k). ap (contains (keys modes)) e)

  abbrev lowered : Text → Text
  lowered = to_lower lower_other

  -- nothing, or the key of a mode whose GUID is in the output
  abbrev pub IsPrinted : Text → Dict Mode → Text → Type 0
  IsPrinted output modes key =
      (key ≡ [])
      ⊎ ((mode : Mode) × (lookup key modes ≡ some mode)
          × (includes output (to_lower lower_other mode.guid) ≡ true))

  IsPrinted-later :
      (output key k : Text) (mode : Mode) (modes : Dict Mode)
      → contains (keys modes) key ≡ false
      → IsPrinted output modes k
      → IsPrinted output ((key, mode) ∷ modes) k
  IsPrinted-later output key k mode modes n (inl e) = inl e
  IsPrinted-later output key k mode modes n (inr (m, found, part)) =
      inr (m, lookup-later key k mode modes m n found, part)

  -- The plan that is shown as active is one whose GUID powercfg has printed, letter case aside.
  pub matching_mode-IsPrinted :
      (output : Text) (modes : Dict Mode)
      → distinct (keys modes) ≡ true
      → IsPrinted output modes (matching_mode lower_other fold_other output modes)
  unfolding matching_mode lookup keys distinct
  matching_mode-IsPrinted output [] d = inl refl
  matching_mode-IsPrinted output ((key, mode) ∷ modes) d =
      elim (Bool-cases (includes output (lowered mode.guid))) [
        | inl h ↦
            subst (IsPrinted output ((key, mode) ∷ modes)) (sym (chosen h))
              (inr (mode, ground (arith, ==_iff key key), h))
        | inr h ↦ subst (IsPrinted output ((key, mode) ∷ modes)) (sym (passed h)) (
            IsPrinted-later output key (matching_mode lower_other fold_other output modes) mode
              modes (ground (arith, d)) (matching_mode-IsPrinted output modes (ground (arith, d))))
      ]
    where
      chosen :
          includes output (lowered mode.guid) ≡ true
          → matching_mode lower_other fold_other output ((key, mode) ∷ modes) ≡ key
      chosen h = rw (h) refl

      passed :
          includes output (lowered mode.guid) ≡ false
          → matching_mode lower_other fold_other output ((key, mode) ∷ modes)
            ≡ matching_mode lower_other fold_other output modes
      passed h = rw (h) refl
