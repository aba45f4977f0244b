-- ===== src/Selects/Fresh.antt =====
-- The search for a fresh key ends, because there are more candidates than keys.
use home_pc_agent.Common.{
  ℕ, zero, suc, ◌+◌, ◌≤◌, ◌<◌, true, false, none, some, List, [], ◌∷◌, ◌++◌, Text, ◌==◌, ==_iff,
  contains, length, ◌≡◌, ap, arith, Option-cases, inl, inr, if◌then◌else◌,
}
use home_pc_agent.Selects.{numbered, search, unique_key}
use home_pc_agent.Selects.Numbers.{decimal_injective}

-- one occurrence of `x` less
erase : Text → List Text → List Text
erase x [] = []
erase x (y ∷ ys) = if y == x then ys else y ∷ erase x ys

length-erase :
    (x : Text) (ys : List Text) → contains ys x ≡ true → length ys ≡ suc (length (erase x ys))
unfolding contains erase
length-erase x [] h = ground arith
length-erase x (y ∷ ys) h = ground (arith, length-erase x ys)

contains-erase :
    (x z : Text) (ys : List Text)
    → (x == z) ≡ false
    → contains ys z ≡ true
    → contains (erase x ys) z ≡ true
unfolding contains erase
contains-erase x z [] n h = ground arith
contains-erase x z (y ∷ ys) n h = ground (arith, contains-erase x z ys, ==_iff y x)

module _ (candidate : ℕ → Text) (injective : (n m : ℕ) → candidate n ≡ candidate m → n ≡ m) where
  erased :
      (fuel i : ℕ) (taken : List Text)
      → ((j : ℕ) → i ≤ j → j < i + suc fuel → contains taken (candidate j) ≡ true)
      → (j : ℕ) → i + 1 ≤ j
      → j < i + 1 + fuel
      → contains (erase (candidate i) taken) (candidate j) ≡ true
  erased fuel i taken h j lo hi =
      contains-erase (candidate i) (candidate j) taken
        (ground (arith, ==_iff (candidate i) (candidate j), injective i j))
        (h j (omega arith) (omega arith))

  -- There are at least as many keys as candidates that are all taken.
  pigeonhole :
      (fuel i : ℕ) (taken : List Text)
      → ((j : ℕ) → i ≤ j → j < i + fuel → contains taken (candidate j) ≡ true)
      → fuel ≤ length taken
  pigeonhole zero i taken h = omega arith
  pigeonhole (suc fuel) i taken h = omega (
    arith,
    length-erase (candidate i) taken (h i (omega arith) (omega arith)),
    pigeonhole fuel (i + 1) (erase (candidate i) taken) (erased fuel i taken h),
  )

  search-none :
      (taken : List Text) (fuel i j : ℕ)
      → search taken candidate fuel i ≡ none
      → i ≤ j
      → j < i + fuel
      → contains taken (candidate j) ≡ true
  unfolding search
  search-none taken zero i j h lo hi = absurd (omega arith)
  search-none taken (suc fuel) i j h lo hi =
      ground (arith, search-none taken fuel (i + 1) j, λ (e : i ≡ j). ap candidate e)

  search-some :
      (taken : List Text) (fuel i : ℕ) (key : Text)
      → search taken candidate fuel i ≡ some key
      → contains taken key ≡ false
  unfolding search
  search-some taken zero i key h = ground arith
  search-some taken (suc fuel) i key h = ground (arith, search-some taken fuel (i + 1) key)

  -- A search with more fuel than keys finds one that is not taken.
  pub search-finds :
      (taken : List Text) (i : ℕ)
      → (key : Text) × (search taken candidate (suc (length taken)) i ≡ some key)
        × (contains taken key ≡ false)
  search-finds taken i = elim (Option-cases (search taken candidate (suc (length taken)) i)) [
    | inl h ↦ absurd (
        omega (
          arith,
          pigeonhole (suc (length taken)) i taken
              (λ j lo hi. search-none taken (suc (length taken)) i j h lo hi),
        ))
    | inr (key, h) ↦ (key, h, search-some taken (suc (length taken)) i key h)
  ]

append-cancel : (s t u : Text) → s ++ t ≡ s ++ u → t ≡ u
append-cancel [] t u h = h
append-cancel (c ∷ s) t u h = append-cancel s t u (cc h)

cons-cancel : {c : ℕ} {s t : Text} → c ∷ s ≡ c ∷ t → s ≡ t
cons-cancel h = cc h

numbered_injective :
    (base suffix : Text) (n m : ℕ) → numbered base suffix n ≡ numbered base suffix m → n ≡ m
unfolding numbered
numbered_injective base suffix n m h =
    decimal_injective n m
      (cons-cancel (append-cancel suffix _ _ (cons-cancel (append-cancel base _ _ h))))

pub unique_key-fresh :
    (taken : List Text) (base suffix : Text) → contains taken (unique_key taken base suffix) ≡ false
unfolding unique_key
unique_key-fresh taken base suffix =
    let (key, e, f) =
      search-finds (numbered base suffix) (numbered_injective base suffix) taken 2 in
    ground (arith, e, f)

-- The search for a fresh key ends: with one more round than there are keys, the loop over the
-- numbers returns, since no two numbers give the same candidate. What uniqueModeKey and
-- uniqueProfileKey return, with or without that loop, is no key of the map.
pub unique_key-ends :
    (taken : List Text) (base suffix : Text)
    → (key : Text) × (search taken (numbered base suffix) (suc (length taken)) 2 ≡ some key)
      × (contains taken key ≡ false)
      × (contains taken (unique_key taken base suffix) ≡ false)
unique_key-ends taken base suffix =
    let (key, found, free) =
      search-finds (numbered base suffix) (numbered_injective base suffix) taken 2 in
    (key, found, free, unique_key-fresh taken base suffix)
