-- ===== src/Entity/Validation.antt =====
-- Validate accepts exactly the well-formed entities.
use home_pc_agent.Common.{
  Bool, true, not, ◌&&◌, none, List, [], ◌∷◌, map, Text, ==_iff, ◌≡◌, ◌↔◌, contains, distinct, all,
  is_empty, is_none, arith, refl,
}
use home_pc_agent.Entity.{
  Entity, Choice, is_select, valid_kind, id_matches, display_name, check_options, validate,
}

abbrev pub has_value : Choice → Bool
has_value o = not (is_empty o.value)

-- What Validate promises of the options: no empty value, and pairwise distinct display names.
abbrev pub options_ok : List Choice → Bool
options_ok os = all has_value os && distinct (map display_name os)

abbrev pub entity_ok : Entity → Bool
entity_ok e =
    id_matches e.id
    && not (is_empty e.name)
    && valid_kind e.kind
    && not (is_select e.kind && is_empty e.options)
    && options_ok e.options

unfoldable pub none_of : List Text → List Text → Bool
none_of seen [] = true
none_of seen (x ∷ xs) = not (contains seen x) && none_of seen xs

pub none_of-cons :
    (s : Text) (seen xs : List Text)
    → none_of (s ∷ seen) xs ≡ (none_of seen xs && not (contains xs s))
unfolding none_of contains
none_of-cons s seen [] = refl
none_of-cons s seen (x ∷ xs) = ground (arith, none_of-cons s seen xs, ==_iff s x, ==_iff x s)

pub none_of-nil : (xs : List Text) → none_of [] xs ≡ true
unfolding none_of contains
none_of-nil [] = refl
none_of-nil (x ∷ xs) = none_of-nil xs

check_options-is_none :
    (id : Text) (seen : List Text) (os : List Choice)
    → is_none (check_options id seen os)
      ≡ (all has_value os && none_of seen (map display_name os) && distinct (map display_name os))
unfolding all none_of distinct check_options
check_options-is_none id seen [] = refl
check_options-is_none id seen (o ∷ os) = ground (
  arith,
  check_options-is_none id (display_name o ∷ seen) os,
  none_of-cons (display_name o) seen (map display_name os),
)

-- Validate accepts an entity exactly when its id matches the pattern, its name is not empty, its
-- kind is supported, a select has options, no option has an empty value, and the display names of
-- the options are pairwise distinct.
pub validate-entity_ok : (e : Entity) → (validate e ≡ none) ↔ (entity_ok e ≡ true)
unfolding validate
validate-entity_ok e =
    ground
      (arith, check_options-is_none e.id [] e.options, none_of-nil (map display_name e.options))
