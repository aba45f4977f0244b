-- ===== src/Runner/Commands/Choosing.antt =====
-- What a select action's command gives to its script.
use home_pc_agent.Common.{
  Option, none, some, List, [], ◌∷◌, Text, codes, contains, contains-sort, contains-keys, Dict,
  lookup, keys, sort, Err, unknown_option, string_option_required, Result, ok, err, Value, is_some,
  ◌≡◌, refl, ap, ◌∙◌, arith, Option-cases, inl, inr,
}
use home_pc_agent.Entity.{option_value, option_name}
use home_pc_agent.Entity.Options.{values}
use home_pc_agent.Selects.{string_payload}
use home_pc_agent.Selects.Sorting.{option_value-contains}
use home_pc_agent.Runner.Settings.{text_param, OptionSettings, Action}
use home_pc_agent.Runner.Options.{choices_of, option_names_from_map}
use home_pc_agent.Runner.States.{Library}
use home_pc_agent.Runner.Commands.{Resolved, structured_error, with_payload, resolve_select_params}

values-choices :
    (options : Dict OptionSettings) (ks : List Text) → values (choices_of options ks) ≡ ks
unfolding choices_of
values-choices options [] = refl
values-choices options (k ∷ ks) = ap (λ t. k ∷ t) (values-choices options ks)

values-names :
    (options : Dict OptionSettings) (v : Text)
    → contains (values (option_names_from_map options)) v ≡ is_some (lookup v options)
unfolding option_names_from_map
values-names options v =
    ap (λ t. contains t v) (values-choices options (sort (keys options)))
    ∙ contains-sort v (keys options)
    ∙ contains-keys v options

module _ (l : Library) where
  option_there :
      (options : Dict OptionSettings) (shown key : Text)
      → option_value (option_names_from_map options) shown ≡ some key
      → (o : OptionSettings) × (lookup key options ≡ some o)
  option_there options shown key h = elim (Option-cases (lookup key options)) [
    | inl e ↦ absurd (
        ground (
          arith,
          e,
          values-names options key,
          option_value-contains (option_names_from_map options) shown key h,
        ))
    | inr found ↦ found
  ]

  abbrev named : Dict OptionSettings → Option Text → Option Text
  named options none = none
  named options (some shown) = option_value (option_names_from_map options) shown

  -- the key that a command's payload names
  abbrev pub names_option : Dict OptionSettings → Value → Option Text
  names_option options payload = named options (string_payload payload)

  -- the parameters of a configured option and the name to show, unless the schema refuses them
  abbrev pub Takes : Action → Dict OptionSettings → Text → Result Resolved → Type 0
  Takes a options key outcome =
      (o : OptionSettings) × (lookup key options ≡ some o)
      × (structured_error l a o.parameters ≡ none
          → outcome
            ≡ ok (o.parameters, text_param (option_name (option_names_from_map options) key)))
      × ((e : Err) → structured_error l a o.parameters ≡ some e → outcome ≡ err e)

  payload-Takes :
      (a : Action) (options : Dict OptionSettings) (shown : Option Text)
      → (named options shown ≡ none
          → (e : Err) × (with_payload l a options (option_names_from_map options) shown ≡ err e))
        × ((key : Text)
            → named options shown ≡ some key
            → Takes a options key (with_payload l a options (option_names_from_map options) shown))
  payload-Takes a options none = (
    (λ h. (string_option_required (codes "select"), refl)),
    (λ key h. absurd (ground (arith, h))),
  )
  payload-Takes a options (some shown) = (
    (λ h. (unknown_option (codes "select") shown, rw (h) refl)),
    (λ key h.
        let (o, found) = option_there options shown key h in
        (o, found, (λ s. rw (h, found, s) refl), (λ e s. rw (h, found, s) refl))),
  )

  -- A command to a select action that names no option is refused. One that names an option has that
  -- option, and resolves to its parameters and its name, unless the setter's schema refuses the
  -- parameters.
  pub resolve_select_params-Takes :
      (a : Action) (options : Dict OptionSettings) (payload : Value)
      → (names_option options payload ≡ none
          → (e : Err) × (resolve_select_params l a options payload ≡ err e))
        × ((key : Text)
            → names_option options payload ≡ some key
            → Takes a options key (resolve_select_params l a options payload))
  unfolding resolve_select_params
  resolve_select_params-Takes a options payload = payload-Takes a options (string_payload payload)
