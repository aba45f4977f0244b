-- ===== src/Selects/Sorting.antt =====
-- The order of the options, and that sorting neither loses nor adds one.
use home_pc_agent.Common.{
  Bool, true, false, not, ◌&&◌, ◌||◌, some, List, [], ◌∷◌, Text, ◌==◌, ==_iff, ==_comm, text_lt,
  contains, distinct, ◌≡◌, refl, arith,
}
use home_pc_agent.Entity.{Choice, option_value}
use home_pc_agent.Entity.Options.{values}
use home_pc_agent.Selects.{before, insert_choice, sort_choices}

text_lt-asymmetric : (s t : Text) → text_lt s t ≡ true → text_lt t s ≡ false
unfolding text_lt
text_lt-asymmetric [] [] h = ground arith
text_lt-asymmetric [] (b ∷ t) h = refl
text_lt-asymmetric (a ∷ s) [] h = ground arith
text_lt-asymmetric (a ∷ s) (b ∷ t) h = ground (arith, text_lt-asymmetric s t)

before-asymmetric :
    (lower : Text → Text) (o p : Choice) → before lower o p ≡ true → before lower p o ≡ false
unfolding before
before-asymmetric lower o p h = ground (
  arith,
  ==_comm (lower o.name) (lower p.name),
  text_lt-asymmetric o.value p.value,
  text_lt-asymmetric (lower o.name) (lower p.name),
)

-- No option stands directly after one that the comparison puts behind it.
unfoldable pub in_order : (Text → Text) → List Choice → Bool
in_order lower [] = true
in_order lower (o ∷ []) = true
in_order lower (o ∷ p ∷ ps) = not (before lower p o) && in_order lower (p ∷ ps)

in_order-insert :
    (lower : Text → Text) (o : Choice) (ps : List Choice)
    → in_order lower ps ≡ true
    → in_order lower (insert_choice lower o ps) ≡ true
unfolding in_order insert_choice
in_order-insert lower o [] h = refl
in_order-insert lower o (p ∷ []) h = ground (arith, before-asymmetric lower p o)
in_order-insert lower o (p ∷ q ∷ ps) h =
    ground (arith, before-asymmetric lower p o, in_order-insert lower o (q ∷ ps))

pub sort_choices-in_order :
    (lower : Text → Text) (os : List Choice) → in_order lower (sort_choices lower os) ≡ true
unfolding sort_choices in_order
sort_choices-in_order lower [] = refl
sort_choices-in_order lower (o ∷ os) =
    in_order-insert lower o (sort_choices lower os) (sort_choices-in_order lower os)

values-insert :
    (lower : Text → Text) (o : Choice) (ps : List Choice) (v : Text)
    → contains (values (insert_choice lower o ps)) v ≡ (o.value == v || contains (values ps) v)
unfolding contains insert_choice
values-insert lower o [] v = refl
values-insert lower o (p ∷ ps) v = ground (arith, values-insert lower o ps v)

-- Sorting changes no membership.
pub values-sort :
    (lower : Text → Text) (os : List Choice) (v : Text)
    → contains (values (sort_choices lower os)) v ≡ contains (values os) v
unfolding contains sort_choices
values-sort lower [] v = refl
values-sort lower (o ∷ os) v =
    ground (arith, values-insert lower o (sort_choices lower os) v, values-sort lower os v)

distinct-values-insert :
    (lower : Text → Text) (o : Choice) (ps : List Choice)
    → contains (values ps) o.value ≡ false
    → distinct (values ps) ≡ true
    → distinct (values (insert_choice lower o ps)) ≡ true
unfolding contains distinct insert_choice
distinct-values-insert lower o [] n d = refl
distinct-values-insert lower o (p ∷ ps) n d = ground (
  arith,
  distinct-values-insert lower o ps,
  values-insert lower o ps p.value,
  ==_comm o.value p.value,
)

-- Options with different values have different values after the sort.
pub distinct-values-sort :
    (lower : Text → Text) (os : List Choice)
    → distinct (values os) ≡ true
    → distinct (values (sort_choices lower os)) ≡ true
unfolding distinct sort_choices
distinct-values-sort lower [] d = refl
distinct-values-sort lower (o ∷ os) d = ground (
  arith,
  distinct-values-insert lower o (sort_choices lower os),
  distinct-values-sort lower os,
  values-sort lower os o.value,
)

-- What OptionValue chooses is the value of an option.
pub option_value-contains :
    (os : List Choice) (input v : Text)
    → option_value os input ≡ some v
    → contains (values os) v ≡ true
unfolding option_value contains
option_value-contains [] input v h = ground arith
option_value-contains (o ∷ os) input v h =
    ground (arith, option_value-contains os input v, ==_iff o.value v)
