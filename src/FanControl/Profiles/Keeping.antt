-- ===== src/FanControl/Profiles/Keeping.antt =====
-- What the configuration says of a profile stays when FanControl's files are merged in.
use home_pc_agent.Common.{
  false, some, List, [], ◌∷◌, Text, ◌==◌, ==_iff, Dict, lookup, insert, keys, contains-keys,
  lookup-insert, contains, trim_space, is_empty, ◌≡◌, refl, ap, ◌∙◌, arith, Bool-cases, inl, inr,
}
use home_pc_agent.Selects.Fresh.{unique_key-fresh}
use home_pc_agent.FanControl.Profiles.{
  Profile, Configs, Library, base, key_of, hash_of, profile_key_by_config_name, unique_profile_key,
  filled, profile_or_zero, add_or_fill, merge_profile, merge_all, merge_discovered_profiles,
}

-- A field that is set stays.
abbrev pub Kept : Text → Text → Type 0
Kept old new = is_empty old ≡ false → new ≡ old

abbrev pub Extends : Profile → Profile → Type 0
Extends p q =
    Kept p.name q.name × Kept p.config_name q.config_name × Kept p.source_path q.source_path

Extends-refl : (p : Profile) → Extends p p
Extends-refl p = ((λ h. refl), (λ h. refl), (λ h. refl))

Kept-trans : (a b c : Text) → Kept a b → Kept b c → Kept a c
Kept-trans a b c ab bc h = bc (ap is_empty (ab h) ∙ h) ∙ ab h

Extends-trans : (p q r : Profile) → Extends p q → Extends q r → Extends p r
Extends-trans p q r (a, b, c) (d, e, f) = (
  Kept-trans p.name q.name r.name a d,
  Kept-trans p.config_name q.config_name r.config_name b e,
  Kept-trans p.source_path q.source_path r.source_path c f,
)

Keeps : Text → Profile → Dict Profile → Type 0
Keeps k p ps = (q : Profile) × (lookup k ps ≡ some q) × Extends p q

module _ (l : Library) where
  filled-Extends : (folder name : Text) (p : Profile) → Extends p (filled l folder name p)
  unfolding filled
  filled-Extends folder name p = ((λ h. rw (h) refl), (λ h. rw (h) refl), (λ h. rw (h) refl))

  insert_new-Keeps :
      (key k : Text) (new p : Profile) (ps : Dict Profile)
      → contains (keys ps) key ≡ false
      → lookup k ps ≡ some p
      → Keeps k p (insert key new ps)
  unfolding Keeps
  insert_new-Keeps key k new p ps f h = (
    p,
    ground (
      arith,
      lookup-insert key k new ps,
      ==_iff key k,
      f,
      h,
      contains-keys k ps,
      λ (e : key ≡ k). ap (contains (keys ps)) e,
    ),
    Extends-refl p,
  )

  insert-filled-Keeps :
      (folder name key k : Text) (p : Profile) (ps : Dict Profile)
      → lookup k ps ≡ some p
      → Keeps k p (insert key (filled l folder name (profile_or_zero l (lookup key ps))) ps)
  unfolding Keeps
  insert-filled-Keeps folder name key k p ps h = elim (Bool-cases (key == k)) [
    | inl e ↦ (
      filled l folder name p,
      lookup-insert key k _ ps
          ∙ (let s : key ≡ k = ground (arith, e, ==_iff key k) in rw (e, s, h) refl),
      filled-Extends folder name p,
    )
    | inr e ↦ (p, lookup-insert key k _ ps ∙ rw (e) h, Extends-refl p)
  ]

  add_or_fill-Keeps :
      (folder name key k : Text) (p : Profile) (ps : Dict Profile)
      → lookup k ps ≡ some p
      → Keeps k p (add_or_fill l folder name ps key)
  add_or_fill-Keeps folder name [] k p ps h =
      insert_new-Keeps (unique_profile_key l ps name) k _ p ps
        (unfold unique_profile_key in unique_key-fresh (keys ps) (key_of l name) (hash_of l name)) h
  add_or_fill-Keeps folder name (c ∷ key) k p ps h =
      insert-filled-Keeps folder name (c ∷ key) k p ps h

  merge_profile-Keeps :
      (folder name k : Text) (p : Profile) (ps : Dict Profile)
      → lookup k ps ≡ some p
      → Keeps k p (merge_profile l folder ps name)
  unfolding merge_profile
  merge_profile-Keeps folder name k p ps h = elim (Bool-cases (is_empty name)) [
    | inl e ↦ rw (e) (unfold Keeps in (p, h, Extends-refl p))
    | inr e ↦ rw (e) (add_or_fill-Keeps folder name (profile_key_by_config_name l ps name) k p ps h)
  ]

  merge_all-Keeps :
      (folder : Text) (names : List Text) (k : Text) (p : Profile) (ps : Dict Profile)
      → lookup k ps ≡ some p
      → Keeps k p (merge_all l folder names ps)
  unfolding merge_all Keeps
  merge_all-Keeps folder [] k p ps h = (p, h, Extends-refl p)
  merge_all-Keeps folder (name ∷ names) k p ps h =
      let (q, found, pq) = merge_profile-Keeps folder (base l (trim_space name)) k p ps h in
      let (r, later, qr) =
        merge_all-Keeps folder names k q (merge_profile l folder ps (base l (trim_space name)))
          found in
      (r, later, Extends-trans p q r pq qr)

  -- Merging what FanControl lists removes no profile, and what a profile has set, by the
  -- configuration or before, stays: its name, its configuration's name, and its path.
  pub merge_discovered_profiles-Extends :
      (ps : Dict Profile) (c : Configs) (k : Text) (p : Profile)
      → lookup k ps ≡ some p
      → (q : Profile) × (lookup k (merge_discovered_profiles l ps c) ≡ some q) × Extends p q
  unfolding merge_discovered_profiles Keeps
  merge_discovered_profiles-Extends ps c k p h = merge_all-Keeps c.config_folder c.configs k p ps h
