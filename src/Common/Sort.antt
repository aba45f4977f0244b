-- ===== src/Common/Sort.antt =====
-- sort.Strings: a sorted rearrangement of the keys.
use mathlib.Core.Path.{◌≡◌, refl, ◌∙◌}
use mathlib.Core.Bool.{true, false, ◌||◌}
use mathlib.Core.List.{List, [], ◌∷◌, reverse, reverse_aux}
use native.Mathlib.Omega.{arith}
use home_pc_agent.Common.Bools.{if◌then◌else◌}
use home_pc_agent.Common.Strings.{Text, ◌==◌, text_lt, contains, distinct, ==_comm}

unfoldable pub insert_sorted : Text → List Text → List Text
insert_sorted x [] = x ∷ []
insert_sorted x (y ∷ ys) = if text_lt y x then y ∷ insert_sorted x ys else x ∷ y ∷ ys

unfoldable pub sort : List Text → List Text
unfolding insert_sorted
sort [] = []
sort (x ∷ xs) = insert_sorted x (sort xs)

contains-insert_sorted :
    (t x : Text) (xs : List Text) → contains (insert_sorted x xs) t ≡ (x == t || contains xs t)
unfolding contains insert_sorted
contains-insert_sorted t x [] = refl
contains-insert_sorted t x (y ∷ ys) = ground (arith, contains-insert_sorted t x ys)

-- Sorting changes no membership.
pub contains-sort : (t : Text) (xs : List Text) → contains (sort xs) t ≡ contains xs t
unfolding sort contains
contains-sort t [] = refl
contains-sort t (x ∷ xs) = ground (arith, contains-insert_sorted t x (sort xs), contains-sort t xs)

distinct-insert_sorted :
    (x : Text) (xs : List Text)
    → contains xs x ≡ false
    → distinct xs ≡ true
    → distinct (insert_sorted x xs) ≡ true
unfolding distinct insert_sorted contains
distinct-insert_sorted x [] n d = refl
distinct-insert_sorted x (y ∷ ys) n d =
    ground (arith, distinct-insert_sorted x ys, contains-insert_sorted y x ys, ==_comm x y)

-- Sorting distinct strings gives distinct strings.
pub distinct-sort : (xs : List Text) → distinct xs ≡ true → distinct (sort xs) ≡ true
unfolding sort distinct
distinct-sort [] d = refl
distinct-sort (x ∷ xs) d =
    ground (arith, distinct-insert_sorted x (sort xs), distinct-sort xs, contains-sort x xs)

contains-reverse_aux :
    (xs acc : List Text) (t : Text)
    → contains (reverse_aux xs acc) t ≡ (contains xs t || contains acc t)
unfolding contains
contains-reverse_aux [] acc t = refl
contains-reverse_aux (x ∷ xs) acc t = ground (arith, contains-reverse_aux xs (x ∷ acc) t)

pub contains-reverse : (xs : List Text) (t : Text) → contains (reverse xs) t ≡ contains xs t
contains-reverse xs t = contains-reverse_aux xs [] t ∙ unfold contains in ground arith
