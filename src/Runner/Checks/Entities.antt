-- ===== src/Runner/Checks/Entities.antt =====
-- An action that the checks accept makes an entity that the registry accepts.
use home_pc_agent.Common.{
  Bool, true, false, not, ◌&&◌, Option, none, some, List, [], ◌∷◌, ◌++◌, map, Text, codes, ◌==◌,
  ==_iff, contains, contains-sort, distinct, all, Dict, keys, sort, Err, ok, trim_space, trim,
  trim_left, trim_right, is_empty, ◌≡◌, refl, ap, ◌∙◌, ◌⊎◌, arith, Bool-cases, inl, inr,
}
use home_pc_agent.Entity.{
  Entity, Choice, Kind, select, switch, button, is_select, valid_kind, validate, id_matches,
  display_name,
}
use home_pc_agent.Entity.Validation.{options_ok, has_value, validate-entity_ok}
use home_pc_agent.PowerPlan.{key_matches}
use home_pc_agent.FanControl.Settings.{Stat}
use home_pc_agent.Runner.Settings.{
  OptionSettings, Action, Config, resolved_entity_id, entity_category,
}
use home_pc_agent.Runner.Options.{
  choices_of, option_names_from_map, kind_of, options_for, entity_with, build_entity,
}
use home_pc_agent.Runner.Checks.{
  first_of, require, has_words, one_of, validate_options, kind_error, validate_action,
}

first_of-head :
    (check : Option Err) (checks : List (Option Err))
    → first_of (check ∷ checks) ≡ none
    → check ≡ none
unfolding first_of
first_of-head none checks h = refl
first_of-head (some e) checks h = absurd (ground (arith, h))

first_of-tail :
    (check : Option Err) (checks : List (Option Err))
    → first_of (check ∷ checks) ≡ none
    → first_of checks ≡ none
unfolding first_of
first_of-tail none checks h = h
first_of-tail (some e) checks h = absurd (ground (arith, h))

require-true : (b : Bool) (path what : Text) → require b path what ≡ none → b ≡ true
require-true true path what h = refl
require-true false path what h = absurd (ground (arith, h))

has_words-text : (t : Text) → has_words t ≡ true → is_empty t ≡ false
unfolding trim_space trim trim_left trim_right
has_words-text [] h = ground (arith, h)
has_words-text (c ∷ t) h = refl

key_matches-text : (t : Text) → key_matches t ≡ true → is_empty t ≡ false
unfolding key_matches
key_matches-text [] h = ground (arith, h)
key_matches-text (c ∷ t) h = refl

-- No key of checked options is empty.
options-no_empty :
    (prefix : Text) (os : Dict OptionSettings)
    → first_of (validate_options prefix os) ≡ none
    → contains (keys os) [] ≡ false
unfolding validate_options contains keys
options-no_empty prefix [] h = refl
options-no_empty prefix ((key, o) ∷ os) h = ground (
  arith,
  key_matches-text key (require-true (key_matches key) _ _ (first_of-head _ _ h)),
  options-no_empty prefix os (first_of-tail _ _ (first_of-tail _ _ h)),
  ==_iff key [],
)

choices_of-values :
    (os : Dict OptionSettings) (ks : List Text)
    → all has_value (choices_of os ks) ≡ not (contains ks [])
unfolding all choices_of contains ◌==◌
choices_of-values os [] = refl
choices_of-values os ([] ∷ ks) = ground arith
choices_of-values os ((c ∷ k) ∷ ks) = choices_of-values os ks

choices_of-empty :
    (os : Dict OptionSettings) (ks : List Text) (k : Text)
    → contains ks k ≡ true
    → is_empty (choices_of os ks) ≡ false
unfolding choices_of contains
choices_of-empty os [] k h = absurd (ground (arith, h))
choices_of-empty os (j ∷ ks) k h = refl

names-nonempty :
    (os : Dict OptionSettings) → is_empty os ≡ false → is_empty (option_names_from_map os) ≡ false
unfolding option_names_from_map keys
names-nonempty [] h = absurd (ground (arith, h))
names-nonempty ((key, o) ∷ os) h =
    choices_of-empty ((key, o) ∷ os) (sort (key ∷ keys os)) key
      (contains-sort key (key ∷ keys os) ∙ unfold contains in ground (arith, ==_iff key key))

names-values :
    (os : Dict OptionSettings)
    → contains (keys os) [] ≡ false
    → all has_value (option_names_from_map os) ≡ true
unfolding option_names_from_map
names-values os h = choices_of-values os (sort (keys os)) ∙ ap not (contains-sort [] (keys os) ∙ h)

abbrev Accepted : Text → Action → Dict OptionSettings → Type 0
Accepted id a os = (e : Entity) × (build_entity id a os ≡ ok e) × (validate e ≡ none)

accept :
    (id : Text) (a : Action) (os : Dict OptionSettings) (k : Kind) (cs : List Choice)
    → kind_of a.kind ≡ k
    → options_for os k ≡ ok cs
    → id_matches id ≡ true
    → is_empty a.name ≡ false
    → valid_kind k ≡ true
    → (is_select k && is_empty cs) ≡ false
    → options_ok cs ≡ true
    → Accepted id a os
unfolding build_entity
accept id a os k cs kind offered i n v s o =
    let e : Entity = record {
      id = id;
      name = a.name;
      kind = kind_of a.kind;
      options = cs;
      icon = a.icon;
      device_class = [];
      state_class = [];
      unit = [];
      category = entity_category a;
    } in
    (
      e,
      ap (λ t. entity_with id a (options_for os t)) kind ∙ ap (entity_with id a) offered,
      (validate-entity_ok e).1 (rw (kind) (ground (arith, i, n, v, s, o))),
    )

-- what the second switch of the checks leaves for a select action
select_options :
    (stat : Text → Stat) (check compile : Text → Option Err) (prefix : Text) (a : Action)
    → (a.kind == codes "select") ≡ true
    → kind_error stat check compile prefix a ≡ none
    → first_of (validate_options prefix a.options) ≡ none
unfolding kind_error
select_options stat check compile prefix a k h = first_of-tail _ _ (rw (k) at h)

-- the kinds that the checks let through
kind_cases :
    (t : Text)
    → one_of (codes "button" ∷ codes "select" ∷ codes "switch" ∷ []) t ≡ true
    → (kind_of t ≡ button)
      ⊎ (kind_of t ≡ switch)
      ⊎ ((kind_of t ≡ select) × ((t == codes "select") ≡ true))
unfolding contains kind_of
kind_cases t h = elim (Bool-cases (t == codes "select")) [
  | inl e ↦ inr (inr (rw (e) refl, e))
  | inr e ↦ elim (Bool-cases (t == codes "switch")) [
    | inl f ↦ inr (inl (rw (e, f) refl))
    | inr f ↦ elim (Bool-cases (t == codes "button")) [
      | inl g ↦ inl (rw (e, f, g) refl)
      | inr g ↦ absurd (
          ground (
            arith,
            h,
            e,
            f,
            g,
            ==_iff (codes "button") t,
            ==_iff t (codes "button"),
            ==_iff (codes "select") t,
            ==_iff t (codes "select"),
            ==_iff (codes "switch") t,
            ==_iff t (codes "switch"),
          ))
    ]
  ]
]

module _ (stat : Text → Stat) (check_interpreter compile : Text → Option Err) where
  -- An action that the checks accept makes an entity that the registry's validation accepts, given
  -- that, if it is a select action, it has configured options and no two of them have the same name.
  pub validate_action-Accepted :
      (c : Config) (key : Text) (a : Action)
      → validate_action stat check_interpreter compile c key a ≡ none
      → ((a.kind == codes "select") ≡ true
          → (is_empty a.options ≡ false)
            × (distinct (map display_name (option_names_from_map a.options)) ≡ true))
      → (e : Entity) × (build_entity (resolved_entity_id key a) a a.options ≡ ok e)
        × (validate e ≡ none)
  unfolding validate_action valid_kind distinct all
  validate_action-Accepted c key a h given =
      let h1 = first_of-tail _ _ h in
      let h2 = first_of-tail _ _ h1 in
      let h3 = first_of-tail _ _ h2 in
      let h9 = first_of-tail _ _ (
        first_of-tail _ _
          (first_of-tail _ _ (first_of-tail _ _ (first_of-tail _ _ (first_of-tail _ _ h3))))) in
      let id = require-true _ _ _ (first_of-head _ _ h2) in
      let name = has_words-text a.name (require-true _ _ _ (first_of-head _ _ h1)) in
      elim (kind_cases a.kind (require-true _ _ _ (first_of-head _ _ h3))) [
        | inl k ↦ accept _ a a.options button [] k refl id name refl refl refl
        | inr (inl k) ↦ accept _ a a.options switch [] k refl id name refl refl refl
        | inr (inr (k, s)) ↦
            accept _ a a.options select (option_names_from_map a.options) k refl id name refl
              (ground (arith, names-nonempty a.options (given s).0))
              (ground (
                arith,
                (given s).1,
                names-values a.options (
                    options-no_empty (codes "actions." ++ key) a.options (
                      select_options stat check_interpreter compile (codes "actions." ++ key) a s
                        (first_of-head _ _ h9))),
              ))
      ]
