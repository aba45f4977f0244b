-- ===== src/Common/Order.antt =====
-- The order of texts, and that sorting different texts depends only on which they are.
use mathlib.Core.Path.{◌≡◌, refl, sym, ◌∙◌, ap, ap₂}
use mathlib.Core.Logic.{inl, inr}
use mathlib.Core.Bool.{Bool, true, false, ◌&&◌}
use mathlib.Core.List.{List, [], ◌∷◌}
use native.Mathlib.Omega.{arith}
use home_pc_agent.Common.Bools.{Bool-cases}
use home_pc_agent.Common.Lists.{all}
use home_pc_agent.Common.Strings.{Text, ◌==◌, ==_iff, ==_comm, text_lt, contains, distinct}
use home_pc_agent.Common.Sort.{insert_sorted, sort, contains-sort}

text_lt_trans : (s t u : Text) → text_lt s t ≡ true → text_lt t u ≡ true → text_lt s u ≡ true
unfolding text_lt
text_lt_trans [] [] u h k = absurd (ground (arith, h))
text_lt_trans [] (b ∷ t) [] h k = absurd (ground (arith, k))
text_lt_trans [] (b ∷ t) (c ∷ u) h k = refl
text_lt_trans (a ∷ s) [] u h k = absurd (ground (arith, h))
text_lt_trans (a ∷ s) (b ∷ t) [] h k = absurd (ground (arith, k))
text_lt_trans (a ∷ s) (b ∷ t) (c ∷ u) h k = ground (arith, h, k, text_lt_trans s t u)

text_lt_total : (s t : Text) → (s == t) ≡ false → text_lt t s ≡ false → text_lt s t ≡ true
unfolding text_lt ◌==◌
text_lt_total [] [] h k = absurd (ground (arith, h))
text_lt_total [] (b ∷ t) h k = refl
text_lt_total (a ∷ s) [] h k = absurd (ground (arith, k))
text_lt_total (a ∷ s) (b ∷ t) h k = ground (arith, h, k, text_lt_total s t)

text_lt_irreflexive : (s : Text) → text_lt s s ≡ false
unfolding text_lt
text_lt_irreflexive [] = refl
text_lt_irreflexive (a ∷ s) = ground (arith, text_lt_irreflexive s)

-- each text is before all that follow it
ascending : List Text → Bool
ascending [] = true
ascending (x ∷ xs) = all (text_lt x) xs && ascending xs

all-insert :
    (x y : Text) (xs : List Text)
    → all (text_lt x) (insert_sorted y xs) ≡ (text_lt x y && all (text_lt x) xs)
unfolding all insert_sorted
all-insert x y [] = refl
all-insert x y (z ∷ zs) = ground (arith, all-insert x y zs)

all_trans :
    (x y : Text) (xs : List Text)
    → text_lt x y ≡ true
    → all (text_lt y) xs ≡ true
    → all (text_lt x) xs ≡ true
unfolding all
all_trans x y [] h k = refl
all_trans x y (z ∷ zs) h k = ground (arith, h, k, all_trans x y zs, text_lt_trans x y z)

ascending-insert :
    (x : Text) (xs : List Text)
    → contains xs x ≡ false
    → ascending xs ≡ true
    → ascending (insert_sorted x xs) ≡ true
unfolding ascending insert_sorted contains all
ascending-insert x [] n a = refl
ascending-insert x (y ∷ ys) n a = elim (Bool-cases (text_lt y x)) [
  | inl h ↦ rw (h) (ground (arith, n, a, h, ascending-insert x ys, all-insert y x ys))
  | inr h ↦ rw (h) (ground (arith, n, a, h, ==_comm x y, text_lt_total x y, all_trans x y ys))
]

ascending-sort : (xs : List Text) → distinct xs ≡ true → ascending (sort xs) ≡ true
unfolding sort distinct ascending
ascending-sort [] d = refl
ascending-sort (x ∷ xs) d =
    ascending-insert x (sort xs) (contains-sort x xs ∙ ground (arith, d))
      (ascending-sort xs (ground (arith, d)))

after_all :
    (x t : Text) (xs : List Text)
    → all (text_lt x) xs ≡ true
    → contains xs t ≡ true
    → text_lt x t ≡ true
unfolding all contains
after_all x t [] a c = absurd (ground (arith, c))
after_all x t (y ∷ ys) a c =
    ground (arith, a, c, after_all x t ys, ==_iff y t, λ (e : y ≡ t). ap (text_lt x) e)

not_after_itself : (x : Text) (xs : List Text) → all (text_lt x) xs ≡ true → contains xs x ≡ false
not_after_itself x xs a = elim (Bool-cases (contains xs x)) [
  | inl h ↦ absurd (cc (after_all x x xs a h, text_lt_irreflexive x))
  | inr h ↦ h
]

heads :
    (x y : Text) (xs ys : List Text)
    → ascending (x ∷ xs) ≡ true
    → ascending (y ∷ ys) ≡ true
    → ((t : Text) → contains (x ∷ xs) t ≡ contains (y ∷ ys) t)
    → (x == y) ≡ true
unfolding ascending contains
heads x y xs ys a b m = elim (Bool-cases (x == y)) [
  | inl e ↦ e
  | inr e ↦ absurd (
      ground (
        arith,
        a,
        b,
        e,
        m x,
        m y,
        ==_iff x x,
        ==_iff y y,
        ==_comm x y,
        after_all x y xs,
        after_all y x ys,
        text_lt_trans x y x,
        text_lt_irreflexive x,
      ))
]

tails :
    (x : Text) (xs ys : List Text) (t : Text)
    → all (text_lt x) xs ≡ true
    → all (text_lt x) ys ≡ true
    → contains (x ∷ xs) t ≡ contains (x ∷ ys) t
    → contains xs t ≡ contains ys t
unfolding contains
tails x xs ys t a b m = ground (
  arith,
  m,
  not_after_itself x xs a,
  not_after_itself x ys b,
  ==_iff x t,
  λ (e : x ≡ t). ap (contains xs) e,
  λ (e : x ≡ t). ap (contains ys) e,
)

-- Two ascending lists with the same members are the same.
ascending_unique :
    (xs ys : List Text)
    → ascending xs ≡ true
    → ascending ys ≡ true
    → ((t : Text) → contains xs t ≡ contains ys t)
    → xs ≡ ys
unfolding ascending
ascending_unique [] [] a b m = refl
ascending_unique [] (y ∷ ys) a b m = absurd (unfold contains in ground (arith, m y, ==_iff y y))
ascending_unique (x ∷ xs) [] a b m = absurd (unfold contains in ground (arith, m x, ==_iff x x))
ascending_unique (x ∷ xs) (y ∷ ys) a b m =
    let e = (==_iff x y).0 (heads x y xs ys a b m) in
    let b' : ascending (x ∷ ys) ≡ true = ap (λ t. ascending (t ∷ ys)) e ∙ b in
    ap₂ ◌∷◌ e (
      ascending_unique xs ys (ground (arith, a)) (ground (arith, b')) (λ t.
        tails x xs ys t (ground (arith, a)) (ground (arith, b'))
          (m t ∙ ap (λ h. contains (h ∷ ys) t) (sym e))))

-- Sorting two lists with the same members, each different from the others, gives the same list.
pub sort_unique :
    (xs ys : List Text)
    → distinct xs ≡ true
    → distinct ys ≡ true
    → ((t : Text) → contains xs t ≡ contains ys t)
    → sort xs ≡ sort ys
sort_unique xs ys d e m =
    ascending_unique (sort xs) (sort ys) (ascending-sort xs d) (ascending-sort ys e)
      (λ t. contains-sort t xs ∙ m t ∙ sym (contains-sort t ys))
