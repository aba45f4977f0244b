-- ===== src/Runner/Invocation/Delivery.antt =====
-- How parameters reach a script: not dependent on the order of a Go map, and cut to a limit.
use home_pc_agent.Common.{
  ℕ, zero, suc, ◌≤◌, true, false, none, some, List, [], ◌∷◌, ◌++◌, Text, codes, ◌==◌, distinct,
  Dict, lookup, keys, contains-keys, sort, sort_unique, Result, ok, ℤ, positive, take, length, ltb,
  ◌<◌, append-nil, is_some, ◌≡◌, refl, sym, ap, ap₂, ◌∙◌, arith, Bool-cases, ◌||◌, inl, inr,
  if◌then◌else◌,
}
use home_pc_agent.Runner.Settings.{Param}
use home_pc_agent.Runner.Invocation.{
  format_flat, format_power_shell, param_or_nil, power_shell_args, flat_args, env_entries, to_upper,
  stdin_of, CommandSpec, delivery_args_for_power_shell, delivery_args_flat, cut, truncate_output,
  delivery_extras, invoke, build_invocation,
}

-- the same map, iterated in another order
abbrev pub SameMap : Dict Param → Dict Param → Type 0
SameMap m n =
    (distinct (keys m) ≡ true) × (distinct (keys n) ≡ true) × ((k : Text) → lookup k m ≡ lookup k n)

same_keys : (m n : Dict Param) → SameMap m n → sort (keys m) ≡ sort (keys n)
same_keys m n (d, e, l) =
    sort_unique (keys m) (keys n) d e
      (λ t. contains-keys t m ∙ ap is_some (l t) ∙ sym (contains-keys t n))

same_power_shell :
    (m n : Dict Param) (ks : List Text)
    → ((k : Text) → lookup k m ≡ lookup k n)
    → power_shell_args m ks ≡ power_shell_args n ks
unfolding power_shell_args
same_power_shell m n [] l = refl
same_power_shell m n (k ∷ ks) l =
    ap₂ (λ v later. (b'-' ∷ k) ∷ format_power_shell (param_or_nil v) ∷ later) (l k)
      (same_power_shell m n ks l)

same_flat :
    (m n : Dict Param) (ks : List Text)
    → ((k : Text) → lookup k m ≡ lookup k n)
    → flat_args m ks ≡ flat_args n ks
unfolding flat_args
same_flat m n [] l = refl
same_flat m n (k ∷ ks) l =
    ap₂ (λ v later. format_flat (param_or_nil v) ∷ later) (l k) (same_flat m n ks l)

args_power_shell :
    (delivery : Text) (m n : Dict Param)
    → SameMap m n
    → delivery_args_for_power_shell delivery m ≡ delivery_args_for_power_shell delivery n
unfolding delivery_args_for_power_shell
args_power_shell delivery m n s =
    ap (λ t. if delivery == codes "args" then t else [])
      (ap (power_shell_args m) (same_keys m n s) ∙ same_power_shell m n (sort (keys n)) s.2)

args_flat :
    (delivery : Text) (m n : Dict Param)
    → SameMap m n
    → delivery_args_flat delivery m ≡ delivery_args_flat delivery n
unfolding delivery_args_flat
args_flat delivery m n s =
    ap (λ t. if delivery == codes "args" then t else [])
      (ap (flat_args m) (same_keys m n s) ∙ same_flat m n (sort (keys n)) s.2)

-- The text, or what is in it before the limit if it is longer: an initial part.
abbrev pub IsCut : ℕ → Text → Text → Type 0
IsCut n s t =
    ((rest : Text) × (t ++ rest ≡ s)) × (length s ≤ n → t ≡ s) × (n < length s → length t ≡ n)

take-prefix : (n : ℕ) (s : Text) → (rest : Text) × (take n s ++ rest ≡ s)
unfolding take
take-prefix zero s = (s, refl)
take-prefix (suc n) [] = ([], refl)
take-prefix (suc n) (c ∷ s) = let (rest, e) = take-prefix n s in (rest, ap (λ t. c ∷ t) e)

length-take : (n : ℕ) (s : Text) → n < length s → length (take n s) ≡ n
unfolding take
length-take zero s h = ground arith
length-take (suc n) [] h = omega (arith, h)
length-take (suc n) (c ∷ s) h = ground (arith, length-take n s, h)

cut-IsCut : (n : ℕ) (s : Text) → IsCut n s (cut n s).0
cut-IsCut n s = elim (Bool-cases (ltb n (length s))) [
  | inl h ↦ rw (h) (take-prefix n s, (λ k. absurd (ground (arith, h, k))), length-take n s)
  | inr h ↦ rw (h) (([], append-nil s), (λ k. refl), (λ k. absurd (ground (arith, h, k))))
]

cut_flag : (n : ℕ) (s : Text) → (cut n s).1 ≡ ltb n (length s)
cut_flag n s = elim (Bool-cases (ltb n (length s))) [ inl h ↦ rw (h) refl | inr h ↦ rw (h) refl ]

-- Without a limit above zero, both outputs stay. With one, each output stays if it is not longer, and
-- otherwise becomes its initial part of exactly that length; they are marked as truncated exactly
-- if one of them was longer.
pub truncate_output_lem :
    (stdout stderr : Text) (limit : ℤ)
    → (positive limit ≡ none → truncate_output stdout stderr limit ≡ (stdout, stderr, false))
      × ((n : ℕ)
          → positive limit ≡ some n
          → IsCut n stdout (truncate_output stdout stderr limit).0
            × IsCut n stderr (truncate_output stdout stderr limit).1
            × ((truncate_output stdout stderr limit).2
                ≡ (ltb n (length stdout) || ltb n (length stderr))))
unfolding truncate_output
truncate_output_lem stdout stderr limit = (
  (λ h. rw (h) refl),
  (λ n h. rw (h) (
    cut-IsCut n stdout,
    cut-IsCut n stderr,
    ap₂ (λ a b. a || b) (cut_flag n stdout) (cut_flag n stderr),
  )),
)

module _ (lower_other upper_other : ℕ → ℕ) (marshal : Dict Param → Result Text)
    (environ : List Text) where
  same_env :
      (m n : Dict Param) (ks : List Text)
      → ((k : Text) → lookup k m ≡ lookup k n)
      → env_entries lower_other upper_other m ks ≡ env_entries lower_other upper_other n ks
  unfolding env_entries
  same_env m n [] l = refl
  same_env m n (k ∷ ks) l =
      ap₂
        (λ v later.
          (codes "HOMEPPC_"
            ++ (to_upper lower_other upper_other k ++ (b'=' ∷ format_flat (param_or_nil v))))
          ∷ later)
        (l k) (same_env m n ks l)

  extras_same :
      (delivery : Text) (m n : Dict Param)
      → SameMap m n
      → marshal m ≡ marshal n
      → delivery_extras lower_other upper_other marshal environ delivery m
        ≡ delivery_extras lower_other upper_other marshal environ delivery n
  unfolding delivery_extras
  extras_same delivery m n s e =
      ap₂
        (λ payload entries.
          if delivery == codes "stdin_json"
          then stdin_of lower_other upper_other marshal environ payload
          else if delivery == codes "env"
          then ok (none, some (environ ++ entries))
          else ok (none, none))
        e
        (ap (env_entries lower_other upper_other m) (same_keys m n s)
          ∙ same_env m n (sort (keys n)) s.2)

  -- The command line, the input and the environment of a script do not depend on the order in
  -- which Go iterates over the map of the parameters, given that json.Marshal does not, which
  -- sorts a map's keys.
  pub build_invocation-SameMap :
      (s : CommandSpec) (params : Dict Param)
      → SameMap s.params params
      → ((m n : Dict Param) → SameMap m n → marshal m ≡ marshal n)
      → build_invocation lower_other upper_other marshal environ s
        ≡ build_invocation lower_other upper_other marshal environ (record s { params = params })
  unfolding build_invocation
  build_invocation-SameMap s params same sorted i =
      invoke lower_other upper_other marshal environ s
        (args_power_shell s.delivery s.params params same i)
        (args_flat s.delivery s.params params same i)
        (extras_same s.delivery s.params params same (sorted s.params params same) i)
