-- ===== src/Selects/Options.antt =====
-- The options made of a map: each value under its key, with its name, sorted.
use home_pc_agent.Common.{
  true, some, List, [], ◌∷◌, map, Text, Dict, lookup, keys, contains-keys, contains, distinct, ◌≡◌,
  refl, ap, ◌∙◌, arith, is_some, Option-cases, inl, inr,
}
use home_pc_agent.Entity.{Choice, option_value}
use home_pc_agent.Entity.Options.{values}
use home_pc_agent.Selects.{sort_choices}
use home_pc_agent.Selects.Sorting.{
  in_order, sort_choices-in_order, values-sort, distinct-values-sort, option_value-contains,
}

module _ {ℓ} {V : Type ℓ} (name_of : V → Text) (lower : Text → Text) where
  abbrev pub named_choices : Dict V → List Choice
  named_choices = map (λ (entry : Text × V). record { value = entry.0; name = name_of entry.1 })

  abbrev pub sorted_options : Dict V → List Choice
  sorted_options m = sort_choices lower (named_choices m)

  values-named : (m : Dict V) → values (named_choices m) ≡ keys m
  unfolding keys
  values-named [] = refl
  values-named ((key, v) ∷ m) = ap (λ t. key ∷ t) (values-named m)

  values-options :
      (m : Dict V) (v : Text) → contains (values (sorted_options m)) v ≡ is_some (lookup v m)
  values-options m v =
      values-sort lower (named_choices m) v
      ∙ ap (λ t. contains t v) (values-named m)
      ∙ contains-keys v m

  -- in order of the lowered names, exactly the keys, and none twice if no key comes twice
  abbrev pub AreOptions : Dict V → List Choice → Type 0
  AreOptions m os =
      (in_order lower os ≡ true)
      × ((v : Text) → contains (values os) v ≡ is_some (lookup v m))
      × (distinct (keys m) ≡ true → distinct (values os) ≡ true)

  pub sorted_options-AreOptions : (m : Dict V) → AreOptions m (sorted_options m)
  sorted_options-AreOptions m = (
    sort_choices-in_order lower (named_choices m),
    values-options m,
    λ d. distinct-values-sort lower (named_choices m) (ap distinct (values-named m) ∙ d),
  )

  -- What OptionValue chooses is the key of a value.
  pub chosen_exists :
      (m : Dict V) (shown key : Text)
      → option_value (sorted_options m) shown ≡ some key
      → (v : V) × (lookup key m ≡ some v)
  chosen_exists m shown key h = elim (Option-cases (lookup key m)) [
    | inl e ↦ absurd (
        ground
          (arith, e, values-options m key, option_value-contains (sorted_options m) shown key h))
    | inr found ↦ found
  ]
