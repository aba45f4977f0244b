-- ===== src/Common/Maps.antt =====
-- A Go map with string keys, as an association list. The order of the entries stands for the
-- order in which Go happens to iterate; theorems hold for every list.
use mathlib.Core.Path.{◌≡◌, refl, ap}
use mathlib.Core.Bool.{Bool, true, false, ◌||◌}
use mathlib.Core.Option.{Option, none, some}
use mathlib.Core.List.{List, [], ◌∷◌, ◌++◌}
use native.Mathlib.Omega.{arith}
use home_pc_agent.Common.Bools.{if◌then◌else◌, is_some}
use home_pc_agent.Common.Strings.{Text, ◌==◌, ==_iff, ==_comm, contains, distinct}

abbrev pub Dict {ℓ} : Type ℓ → Type ℓ
Dict V = List (Text × V)

module _ {ℓ} {V : Type ℓ} where
  -- v, ok := m[k]
  unfoldable pub lookup : Text → Dict V → Option V
  lookup k [] = none
  lookup k ((j, v) ∷ m) = if j == k then some v else lookup k m

  abbrev pub has : Text → Dict V → Bool
  has k m = is_some (lookup k m)

  -- m[k] = v
  unfoldable pub insert : Text → V → Dict V → Dict V
  insert k v [] = (k, v) ∷ []
  insert k v ((j, w) ∷ m) = if j == k then (j, v) ∷ m else (j, w) ∷ insert k v m

  -- delete(m, k)
  unfoldable pub delete : Text → Dict V → Dict V
  delete k [] = []
  delete k ((j, w) ∷ m) = let rest = delete k m in if j == k then rest else (j, w) ∷ rest

  unfoldable pub keys : Dict V → List Text
  keys [] = []
  keys ((j, _) ∷ m) = j ∷ keys m

  pub lookup-insert :
      (k j : Text) (v : V) (m : Dict V)
      → lookup j (insert k v m) ≡ (if k == j then some v else lookup j m)
  unfolding lookup insert
  lookup-insert k j v [] = ground arith
  lookup-insert k j v ((i, w) ∷ m) =
      ground (arith, ==_iff k j, ==_iff i k, ==_iff i j, lookup-insert k j v m)

  pub lookup-delete :
      (k j : Text) (m : Dict V) → lookup j (delete k m) ≡ (if k == j then none else lookup j m)
  unfolding lookup delete
  lookup-delete k j [] = ground arith
  lookup-delete k j ((i, w) ∷ m) =
      ground (arith, ==_iff k j, ==_iff i k, ==_iff i j, lookup-delete k j m)

  pub contains-keys : (k : Text) (m : Dict V) → contains (keys m) k ≡ has k m
  unfolding contains keys lookup
  contains-keys k [] = refl
  contains-keys k ((j, v) ∷ m) = ground (arith, contains-keys k m)

  -- A new key is put at the end.
  pub insert-fresh :
      (k : Text) (v : V) (m : Dict V)
      → contains (keys m) k ≡ false
      → insert k v m ≡ m ++ ((k, v) ∷ [])
  unfolding contains keys insert
  insert-fresh k v [] h = refl
  insert-fresh k v ((j, w) ∷ m) h = ground (arith, insert-fresh k v m)

  pub keys-append : (m n : Dict V) → keys (m ++ n) ≡ keys m ++ keys n
  unfolding keys
  keys-append [] n = refl
  keys-append ((j, w) ∷ m) n = ap (λ t. j ∷ t) (keys-append m n)

  -- What is written to a key that is there changes no key.
  pub keys-insert-present :
      (k : Text) (v : V) (m : Dict V) → contains (keys m) k ≡ true → keys (insert k v m) ≡ keys m
  unfolding contains keys insert
  keys-insert-present k v [] h = ground arith
  keys-insert-present k v ((j, w) ∷ m) h = ground (arith, keys-insert-present k v m)

  contains-keys-insert :
      (k j : Text) (v : V) (m : Dict V)
      → contains (keys (insert k v m)) j ≡ (k == j || contains (keys m) j)
  unfolding contains keys insert
  contains-keys-insert k j v [] = refl
  contains-keys-insert k j v ((i, w) ∷ m) =
      ground (arith, contains-keys-insert k j v m, ==_iff i k, ==_iff i j, ==_iff k j)

  -- A map holds each key once, and keeps it so.
  pub distinct-keys-insert :
      (k : Text) (v : V) (m : Dict V)
      → distinct (keys m) ≡ true
      → distinct (keys (insert k v m)) ≡ true
  unfolding distinct keys insert
  distinct-keys-insert k v [] d = unfold contains in refl
  distinct-keys-insert k v ((i, w) ∷ m) d =
      ground (arith, distinct-keys-insert k v m, contains-keys-insert k i v m, ==_comm k i)

  contains-keys-delete :
      (k j : Text) (m : Dict V) → contains (keys (delete k m)) j ≡ true → contains (keys m) j ≡ true
  unfolding contains keys delete
  contains-keys-delete k j [] h = h
  contains-keys-delete k j ((i, w) ∷ m) h = ground (arith, contains-keys-delete k j m)

  pub distinct-keys-delete :
      (k : Text) (m : Dict V) → distinct (keys m) ≡ true → distinct (keys (delete k m)) ≡ true
  unfolding distinct keys delete
  distinct-keys-delete k [] d = refl
  distinct-keys-delete k ((i, w) ∷ m) d =
      ground (arith, distinct-keys-delete k m, contains-keys-delete k i m)

pub ruleset dict_laws = (lookup-insert, lookup-delete)
