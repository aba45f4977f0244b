-- ===== src/Catalog/Owners.antt =====
-- What an error-free part of the catalog's check says of the owners of entity ids.
use home_pc_agent.Common.{
  Bool, true, false, Option, none, some, List, [], ◌∷◌, ◌++◌, Text, ◌==◌, ==_iff, Dict, lookup,
  insert, lookup-insert, contains, Err, Result, ok, err, Value, ◌≡◌, refl, subst, Bool-cases, inl,
  inr, arith,
}
use home_pc_agent.Config.{plugin_raw, plugin_enabled}
use home_pc_agent.Catalog.{
  CatalogFactory, resolve_ids, validate_factory, supported_on, Checked, claim_one, claim_ids,
  after_validate, after_build, check_found, check_all,
}

-- Owners are never replaced.
abbrev pub Extends : Dict Text → Dict Text → Type 0
Extends owners later = (x o : Text) → lookup x owners ≡ some o → lookup x later ≡ some o

abbrev pub Owns : Text → List Text → Dict Text → Type 0
Owns id xs owners = (x : Text) → contains xs x ≡ true → lookup x owners ≡ some id

-- without errors, the ids are claimed and the owners extended
abbrev pub Claimed : Text → List Text → Dict Text → Checked → Type 0
Claimed id xs owners r = r.0 ≡ [] → Extends owners r.1 × Owns id xs r.1

claim_one-Claimed :
    (id x : Text) (xs : List Text) (o : Option Text) (owners : Dict Text)
    → lookup x owners ≡ o
    → ((later : Dict Text) → Claimed id xs later (claim_ids id xs later))
    → Claimed id (x ∷ xs) owners (claim_one id x o (λ later. claim_ids id xs later) owners)
unfolding contains
claim_one-Claimed id x xs (some owner) owners h go = λ e. absurd (ground (arith, e))
claim_one-Claimed id x xs none owners h go = λ e.
    let rest = go (insert x id owners) e in
    (
      (λ y o p. ground (arith, rest.0 y o, lookup-insert x y id owners, ==_iff x y, h, p)),
      (λ y c. ground (arith, rest.1 y, rest.0 y id, lookup-insert x y id owners, ==_iff x y, c)),
    )

claim_ids-Claimed :
    (id : Text) (xs : List Text) (owners : Dict Text)
    → Claimed id xs owners (claim_ids id xs owners)
unfolding claim_ids
claim_ids-Claimed id [] owners =
    λ e. ((λ x o p. p), (λ x c. absurd (unfold contains in ground (arith, c))))
claim_ids-Claimed id (x ∷ xs) owners =
    claim_one-Claimed id x xs (lookup x owners) owners refl (λ later. claim_ids-Claimed id xs later)

-- What an enabled plugin's factory says when its section is accepted, and that it owns its ids.
abbrev pub Provides : Text → Bool → Option Err → Result (List Text) → Dict Text → Type 0
Provides id supported invalid ids owners =
    (supported ≡ true) × (invalid ≡ none) × ((xs : List Text) × (ids ≡ ok xs) × Owns id xs owners)

after_validate_lem :
    (id : Text) (invalid : Option Err) (ids : Result (List Text)) (owners : Dict Text)
    → (after_validate id invalid ids owners).0 ≡ []
    → Extends owners (after_validate id invalid ids owners).1
      × Provides id true invalid ids (after_validate id invalid ids owners).1
after_validate_lem id (some e) ids owners h = absurd (ground (arith, h))
after_validate_lem id none (err e) owners h = absurd (ground (arith, h))
after_validate_lem id none (ok xs) owners h =
    let c = claim_ids-Claimed id xs owners h in (c.0, (refl, refl, (xs, refl, c.1)))

after_build_lem :
    (goos id : Text) (enabled supported : Bool) (broken invalid : Option Err)
    (ids : Result (List Text)) (owners : Dict Text)
    → let r = after_build goos id enabled supported broken invalid ids owners in
      r.0 ≡ []
      → Extends owners r.1
        × (broken ≡ none)
        × (enabled ≡ true → Provides id supported invalid ids r.1)
after_build_lem goos id enabled supported (some e) invalid ids owners h = absurd (ground (arith, h))
after_build_lem goos id false supported none invalid ids owners h =
    ((λ x o p. p), refl, (λ t. absurd (ground (arith, t))))
after_build_lem goos id true false none invalid ids owners h = absurd (ground (arith, h))
after_build_lem goos id true true none invalid ids owners h =
    let v = after_validate_lem id invalid ids owners h in (v.0, refl, (λ t. v.1))

-- The section of `id` is accepted.
abbrev pub IsAccepted : Text → Option CatalogFactory → Dict Value → Text → Dict Text → Type 0
IsAccepted goos o sections id owners =
    (f : CatalogFactory) × (o ≡ some f)
    × (f.build_error (plugin_raw id sections) ≡ none)
    × (plugin_enabled id sections ≡ true
        → Provides id (supported_on f goos) (validate_factory f (plugin_raw id sections))
            (resolve_ids f (plugin_raw id sections)) owners)

check_found_lem :
    (goos id : Text) (o : Option CatalogFactory) (sections : Dict Value) (owners : Dict Text)
    → (check_found goos id o sections owners).0 ≡ []
    → Extends owners (check_found goos id o sections owners).1
      × IsAccepted goos o sections id (check_found goos id o sections owners).1
unfolding check_found
check_found_lem goos id none sections owners h = absurd (ground (arith, h))
check_found_lem goos id (some f) sections owners h =
    let raw = plugin_raw id sections in
    let a =
      after_build_lem goos id (plugin_enabled id sections) (supported_on f goos) (f.build_error raw)
        (validate_factory f raw) (resolve_ids f raw) owners h in
    (a.0, (f, refl, a.1, a.2))

append_nil_left : (xs ys : List Err) → xs ++ ys ≡ [] → xs ≡ []
append_nil_left [] ys h = refl
append_nil_left (x ∷ xs) ys h = absurd (ground (arith, h))

append_nil_right : (xs ys : List Err) → xs ++ ys ≡ [] → ys ≡ []
append_nil_right [] ys h = h
append_nil_right (x ∷ xs) ys h = absurd (ground (arith, h))

IsAccepted-Extends :
    (goos : Text) (o : Option CatalogFactory) (sections : Dict Value) (id : Text)
    (owners later : Dict Text)
    → Extends owners later
    → IsAccepted goos o sections id owners
    → IsAccepted goos o sections id later
IsAccepted-Extends goos o sections id owners later e (f, p, b, n) =
    (f, p, b, λ t. let (s, v, (xs, q, own)) = n t in (s, v, (xs, q, λ x c. e x id (own x c))))

-- A check of a list of sections without errors accepts them all.
pub check_all_lem :
    (goos : Text) (factories : Dict CatalogFactory) (sections : Dict Value) (ids : List Text)
    (owners : Dict Text)
    → (check_all goos factories sections ids owners).0 ≡ []
    → Extends owners (check_all goos factories sections ids owners).1
      × ((k : Text)
          → contains ids k ≡ true
          → IsAccepted goos
              (lookup k factories)
              sections
              k
              (check_all goos factories sections ids owners).1)
unfolding check_all contains
check_all_lem goos factories sections [] owners h =
    ((λ x o p. p), (λ k c. absurd (ground (arith, c))))
check_all_lem goos factories sections (id ∷ ids) owners h =
    let first = check_found goos id (lookup id factories) sections owners in
    let rest = check_all goos factories sections ids first.1 in
    let f =
      check_found_lem goos id (lookup id factories) sections owners
        (append_nil_left first.0 rest.0 h) in
    let r = check_all_lem goos factories sections ids first.1 (append_nil_right first.0 rest.0 h) in
    (
      (λ x o p. r.0 x o (f.0 x o p)),
      (λ k c. elim (Bool-cases (id == k)) [
        | inl e ↦
            subst (λ j. IsAccepted goos (lookup j factories) sections j rest.1) ((==_iff id k).0 e)
              (IsAccepted-Extends goos (lookup id factories) sections id first.1 rest.1 r.0 f.1)
        | inr n ↦ r.1 k (ground (arith, c, n))
      ]),
    )
