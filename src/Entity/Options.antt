-- ===== src/Entity/Options.antt =====
-- Choosing a select option by what the user sees.
use home_pc_agent.Common.{
  Bool, true, not, ◌||◌, none, some, List, [], ◌∷◌, map, Text, ◌==◌, ==_iff, ==_refl, ◌≡◌, ◌≢◌, ◌⊎◌,
  contains, distinct, all, arith, refl,
}
use home_pc_agent.Entity.{
  Choice, display_name, option_value, option_name, option_names, option_names_from,
}
use home_pc_agent.Entity.Validation.{none_of, options_ok, none_of-nil, none_of-cons}

-- An option answers to an input that is its value or its name.
abbrev pub answers_to : Text → Choice → Bool
answers_to input o = input == o.value || input == o.name

abbrev pub answers_with : Text → Text → Choice → Bool
answers_with input v o = not (answers_to input o) || o.value == v

abbrev pub values : List Choice → List Text
values = map λ o. o.value

-- Whatever option answers to the name shown for `v` has the value `v`.
abbrev pub Unambiguous : Text → List Choice → Type 0
Unambiguous v os = all (answers_with (option_name os v) v) os ≡ true

option_value-answers :
    (os : List Choice) (input v : Text)
    → all (answers_with input v) os ≡ true
    → (option_value os input ≡ none) ⊎ (option_value os input ≡ some v)
unfolding all option_value
option_value-answers [] input v h = ground arith
option_value-answers (o ∷ os) input v h =
    ground (arith, option_value-answers os input v, ==_iff o.value v)

option_value-some :
    (os : List Choice) (v : Text)
    → contains (values os) v ≡ true
    → option_value os (option_name os v) ≢ none
unfolding option_value option_name contains display_name
option_value-some [] v h = ground arith
option_value-some (o ∷ os) v h =
    ground (arith, option_value-some os v, ==_refl o.name, ==_refl o.value)

-- Selecting the name that is shown for an option's value chooses that value, if no other option
-- answers to that name.
pub option_value-option_name :
    (os : List Choice) (v : Text)
    → contains (values os) v ≡ true
    → Unambiguous v os
    → option_value os (option_name os v) ≡ some v
option_value-option_name os v h u =
    ground (arith, option_value-answers os (option_name os v) v, option_value-some os v)

-- The names that a select entity offers are the display names, in order, when these are distinct.
option_names_from-distinct :
    (seen : List Text) (os : List Choice)
    → none_of seen (map display_name os) ≡ true
    → distinct (map display_name os) ≡ true
    → option_names_from seen os ≡ map display_name os
unfolding none_of distinct option_names_from
option_names_from-distinct seen [] h d = refl
option_names_from-distinct seen (o ∷ os) h d = ground (
  arith,
  option_names_from-distinct (display_name o ∷ seen) os,
  none_of-cons (display_name o) seen (map display_name os),
)

-- No name is offered twice, and none that was seen before.
option_names_from-fresh :
    (seen : List Text) (os : List Choice)
    → (none_of seen (option_names_from seen os) ≡ true)
      × (distinct (option_names_from seen os) ≡ true)
unfolding none_of distinct option_names_from
option_names_from-fresh seen [] = (refl, refl)
option_names_from-fresh seen (o ∷ os) = ground (
  arith,
  option_names_from-fresh seen os,
  option_names_from-fresh (display_name o ∷ seen) os,
  none_of-cons (display_name o) seen (option_names_from (display_name o ∷ seen) os),
)

contains-option_names_from :
    (t : Text) (seen : List Text) (os : List Choice)
    → (contains seen t || contains (option_names_from seen os) t)
      ≡ (contains seen t || contains (map display_name os) t)
unfolding contains option_names_from
contains-option_names_from t seen [] = refl
contains-option_names_from t seen (o ∷ os) = ground (
  arith,
  contains-option_names_from t seen os,
  contains-option_names_from t (display_name o ∷ seen) os,
  ==_iff (display_name o) t,
)

-- OptionNames offers no name twice and exactly the display names of the options; for the options
-- of a validated entity it offers one name for each option, in order.
pub option_names_lem :
    (os : List Choice)
    → (distinct (option_names os) ≡ true)
      × ((t : Text) → contains (option_names os) t ≡ contains (map display_name os) t)
      × (options_ok os ≡ true → option_names os ≡ map display_name os)
unfolding option_names
option_names_lem os = (
  (option_names_from-fresh [] os).1,
  (λ t. unfold contains in contains-option_names_from t [] os),
  (λ h. option_names_from-distinct [] os (none_of-nil (map display_name os)) (ground arith)),
)
