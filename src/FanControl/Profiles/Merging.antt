-- ===== src/FanControl/Profiles/Merging.antt =====
-- What becomes of the profiles when FanControl's list of files is merged into them.
use home_pc_agent.Common.{
  true, false, [], ◌∷◌, ◌++◌, Text, ==_iff, ==_refl, Dict, keys, insert-fresh, keys-append,
  keys-insert-present, contains, all, is_empty, ◌≡◌, refl, ap, ◌∙◌, arith, Bool-cases, inl, inr,
  if◌then◌else◌,
}
use home_pc_agent.Mqtt.Topics.{to_lower}
use home_pc_agent.Selects.{equal_fold, unique_key}
use home_pc_agent.FanControl.Names.Words.{has_text}
use home_pc_agent.FanControl.Profiles.{
  Profile, Library, key_of, profile_key_by_config_name, unique_profile_key, add_or_fill,
  merge_profile,
}

module _ (l : Library) where
  equal_fold_refl : (s : Text) → equal_fold l.fold_other s s ≡ true
  unfolding equal_fold
  equal_fold_refl s = ==_refl (to_lower l.fold_other s)

  -- The file's own key is that of a profile that has the name.
  by_key :
      (ps : Dict Profile) (name : Text)
      → all has_text (keys ps) ≡ true
      → contains (keys ps) (key_of l name) ≡ true
      → is_empty (profile_key_by_config_name l ps name) ≡ false
  unfolding profile_key_by_config_name keys contains all
  by_key [] name t h = ground arith
  by_key ((key, p) ∷ ps) name t h = ground (
    arith,
    t,
    h,
    by_key ps name,
    ==_iff key (key_of l name),
    equal_fold_refl (key_of l name),
    λ (e : key ≡ key_of l name). ap (λ k. equal_fold l.fold_other k (key_of l name)) e,
  )

  by_name-contains :
      (ps : Dict Profile) (name : Text)
      → is_empty (profile_key_by_config_name l ps name) ≡ false
      → contains (keys ps) (profile_key_by_config_name l ps name) ≡ true
  unfolding profile_key_by_config_name keys contains
  by_name-contains [] name h = ground (arith, h)
  by_name-contains ((key, p) ∷ ps) name h = ground (arith, h, by_name-contains ps name, ==_refl key)

  unique_is_own :
      (ps : Dict Profile) (name : Text)
      → contains (keys ps) (key_of l name) ≡ false
      → unique_profile_key l ps name ≡ key_of l name
  unfolding unique_profile_key unique_key
  unique_is_own ps name h = rw (h) refl

  add_or_fill-new :
      (folder name : Text) (ps : Dict Profile)
      → contains (keys ps) (key_of l name) ≡ false
      → keys (add_or_fill l folder name ps []) ≡ keys ps ++ key_of l name ∷ []
  add_or_fill-new folder name ps h =
      rw (unique_is_own ps name h)
        (ap keys (insert-fresh (key_of l name) _ ps h) ∙ keys-append ps _ ∙ unfold keys in refl)

  add_or_fill-old :
      (folder name : Text) (ps : Dict Profile) (key : Text)
      → is_empty key ≡ false
      → contains (keys ps) key ≡ true
      → keys (add_or_fill l folder name ps key) ≡ keys ps
  add_or_fill-old folder name ps [] n h = absurd (ground (arith, n))
  add_or_fill-old folder name ps (c ∷ key) n h = keys-insert-present (c ∷ key) _ ps h

  merge_profile-step :
      (folder name : Text) (ps : Dict Profile)
      → is_empty name ≡ false
      → merge_profile l folder ps name
        ≡ add_or_fill l folder name ps (profile_key_by_config_name l ps name)
  unfolding merge_profile
  merge_profile-step folder name ps n = rw (n) refl

  empty_is_nil : (t : Text) → is_empty t ≡ true → t ≡ []
  empty_is_nil [] h = refl
  empty_is_nil (c ∷ t) h = absurd (ground (arith, h))

  not_taken :
      (ps : Dict Profile) (name : Text)
      → all has_text (keys ps) ≡ true
      → is_empty (profile_key_by_config_name l ps name) ≡ true
      → contains (keys ps) (key_of l name) ≡ false
  not_taken ps name t e = elim (Bool-cases (contains (keys ps) (key_of l name))) [
    | inl c ↦ absurd (cc (by_key ps name t c, e))
    | inr c ↦ c
  ]

  keys_new :
      (folder name : Text) (ps : Dict Profile)
      → all has_text (keys ps) ≡ true
      → is_empty name ≡ false
      → is_empty (profile_key_by_config_name l ps name) ≡ true
      → keys (merge_profile l folder ps name) ≡ keys ps ++ key_of l name ∷ []
  keys_new folder name ps t n e =
      ap keys (merge_profile-step folder name ps n)
      ∙ ap (λ k. keys (add_or_fill l folder name ps k)) (empty_is_nil _ e)
      ∙ add_or_fill-new folder name ps (not_taken ps name t e)

  keys_old :
      (folder name : Text) (ps : Dict Profile)
      → is_empty name ≡ false
      → is_empty (profile_key_by_config_name l ps name) ≡ false
      → keys (merge_profile l folder ps name) ≡ keys ps
  keys_old folder name ps n e =
      ap keys (merge_profile-step folder name ps n)
      ∙ add_or_fill-old folder name ps (profile_key_by_config_name l ps name) e
          (by_name-contains ps name e)

  -- FanControl's file adds a profile under the key made of its own name, or none: a file whose key
  -- is taken never gets a profile of its own, since the profile with that key counts as having its
  -- name. (The keys of the profiles are not empty.)
  pub merge_profile-keys :
      (folder name : Text) (ps : Dict Profile)
      → all has_text (keys ps) ≡ true
      → is_empty name ≡ false
      → (contains (keys ps) (key_of l name) ≡ true
          → keys (merge_profile l folder ps name) ≡ keys ps)
        × (keys (merge_profile l folder ps name) ≡ (
            if is_empty (profile_key_by_config_name l ps name)
            then keys ps ++ key_of l name ∷ []
            else keys ps))
  merge_profile-keys folder name ps t n = (
    (λ c. keys_old folder name ps n (by_key ps name t c)),
    elim (Bool-cases (is_empty (profile_key_by_config_name l ps name))) [
      | inl e ↦ rw (e) (keys_new folder name ps t n e)
      | inr e ↦ rw (e) (keys_old folder name ps n e)
    ],
  )
