-- ===== src/PowerProfile/Parsing.antt =====
-- Which profiles are read from the daemon's list.
use home_pc_agent.Common.{
  Bool, true, false, not, ◌&&◌, ◌||◌, Option, none, some, List, [], ◌∷◌, ◌++◌, Text, codes, ◌==◌,
  ==_iff, contains, contains-append, distinct, distinct-snoc, all, subst, Dict, lookup, Err, ok,
  err, is_empty, ◌≡◌, refl, sym, ap, ◌∙◌, arith, Bool-cases, inl, inr,
}
use home_pc_agent.PowerProfile.{
  Variant, entries, string_of, add_profile, collect, some_profiles, parse_profiles,
}

-- whether an entry names the profile
abbrev pub names_it : Text → Option Text → Bool
names_it t none = false
names_it t (some id) = id == t

unfoldable pub offers : List (Dict Variant) → Text → Bool
offers [] t = false
offers (entry ∷ rest) t = names_it t (string_of (lookup (codes "Profile") entry)) || offers rest t

abbrev pub has_text : Text → Bool
has_text t = not (is_empty t)

contains-add :
    (profiles : List Text) (id : Option Text) (t : Text)
    → contains (add_profile profiles id) t ≡ (contains profiles t || (has_text t && names_it t id))
contains-add profiles none t = ground arith
contains-add profiles (some id) t = elim (Bool-cases (is_empty id || contains profiles id)) [
  | inl h ↦ rw (h) (
      ground (
        arith,
        h,
        ==_iff id t,
        λ (e : id ≡ t). ap is_empty e,
        λ (e : id ≡ t). ap (contains profiles) e,
      ))
  | inr h ↦ rw (h) (
      contains-append profiles (id ∷ []) t
      ∙ unfold contains in ground (arith, h, ==_iff id t, λ (e : id ≡ t). ap is_empty e))
]

-- distinct and without an empty text
abbrev pub are_ids : List Text → Bool
are_ids ids = distinct ids && all has_text ids

all-snoc :
    (ids : List Text) (id : Text)
    → all has_text ids ≡ true
    → has_text id ≡ true
    → all has_text (ids ++ id ∷ []) ≡ true
unfolding all
all-snoc [] id h k = ground (arith, k)
all-snoc (x ∷ ids) id h k = ground (arith, h, all-snoc ids id)

are_ids-add :
    (profiles : List Text) (id : Option Text)
    → are_ids profiles ≡ true
    → are_ids (add_profile profiles id) ≡ true
are_ids-add profiles none d = d
are_ids-add profiles (some id) d = elim (Bool-cases (is_empty id || contains profiles id)) [
  | inl h ↦ rw (h) d
  | inr h ↦ rw (h) (ground (arith, h, d, distinct-snoc profiles id, all-snoc profiles id))
]

contains-collect :
    (profiles : List Text) (es : List (Dict Variant)) (t : Text)
    → contains (collect profiles es) t ≡ (contains profiles t || (has_text t && offers es t))
unfolding collect offers
contains-collect profiles [] t = ground arith
contains-collect profiles (e ∷ es) t = ground (
  arith,
  contains-collect (add_profile profiles (string_of (lookup (codes "Profile") e))) es t,
  contains-add profiles (string_of (lookup (codes "Profile") e)) t,
)

are_ids-collect :
    (profiles : List Text) (es : List (Dict Variant))
    → are_ids profiles ≡ true
    → are_ids (collect profiles es) ≡ true
unfolding collect
are_ids-collect profiles [] d = d
are_ids-collect profiles (e ∷ es) d =
    are_ids-collect (add_profile profiles (string_of (lookup (codes "Profile") e))) es
      (are_ids-add profiles (string_of (lookup (codes "Profile") e)) d)

some_profiles-ok :
    (found ids : List Text) → some_profiles found ≡ ok ids → (found ≡ ids) × (is_empty ids ≡ false)
some_profiles-ok [] ids h = absurd (ground (arith, h))
some_profiles-ok (x ∷ found) ids h = let e : x ∷ found ≡ ids = cc h in (e, rw (← e) refl)

some_profiles-err : (found : List Text) (e : Err) → some_profiles found ≡ err e → found ≡ []
some_profiles-err [] e h = refl
some_profiles-err (x ∷ found) e h = absurd (ground (arith, h))

no_ids : are_ids [] ≡ true
unfolding distinct all
no_ids = refl

-- What is read of a list of entries: no profile twice, none empty, and exactly those that an entry
-- names by a string; it is an error exactly to name none.
pub parse_profiles_lem :
    (es : List (Dict Variant))
    → ((ids : List Text)
        → parse_profiles (entries es) ≡ ok ids
        → (is_empty ids ≡ false)
          × (are_ids ids ≡ true)
          × ((t : Text) → contains ids t ≡ (has_text t && offers es t)))
      × ((e : Err)
          → parse_profiles (entries es) ≡ err e
          → (t : Text) → (has_text t && offers es t) ≡ false)
unfolding parse_profiles
parse_profiles_lem es = (
  (λ ids h.
      let (found, nonempty) = some_profiles-ok (collect [] es) ids h in
      (
        nonempty,
        subst (λ t. are_ids t ≡ true) found (are_ids-collect [] es (no_ids)),
        (λ t. ap (λ ts. contains ts t) (sym found) ∙ of_collect t),
      )),
  (λ e h t.
      sym (of_collect t)
      ∙ ap (λ ts. contains ts t) (some_profiles-err (collect [] es) e h)
      ∙ unfold contains in refl),
)
  where
    of_collect : (t : Text) → contains (collect [] es) t ≡ (has_text t && offers es t)
    of_collect t = contains-collect [] es t ∙ unfold contains in refl
