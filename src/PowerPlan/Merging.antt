-- ===== src/PowerPlan/Merging.antt =====
-- Discovered power plans beside the configured ones.
use home_pc_agent.Common.{
  ℕ, true, false, some, List, [], ◌∷◌, ◌++◌, map, Text, ==_iff, Dict, lookup, insert, keys,
  insert-fresh, contains-keys, lookup-insert, contains, contains-append, distinct, distinct-snoc,
  ◌≡◌, refl, sym, ap, subst, All, ◌∙◌, arith, Bool-cases, inl, inr,
}
use home_pc_agent.Mqtt.Topics.{to_lower}
use home_pc_agent.Selects.{equal_fold}
use home_pc_agent.Selects.Fresh.{unique_key-fresh}
use home_pc_agent.PowerPlan.{
  Mode, has_mode_guid, key_base, short_guid, unique_mode_key, merge_discovered_modes,
}

module _ (lower_other fold_other : ℕ → ℕ) where
  abbrev fold : Text → Text
  fold = to_lower fold_other

  abbrev merge : Dict Mode → List Mode → Dict Mode
  merge = merge_discovered_modes lower_other fold_other

  abbrev pub guids : Dict Mode → List Text
  guids = map (λ (entry : Text × Mode). to_lower fold_other entry.1.guid)

  has_mode_guid-contains :
      (modes : Dict Mode) (guid : Text)
      → has_mode_guid lower_other fold_other modes guid ≡ contains (guids modes) (fold guid)
  unfolding has_mode_guid equal_fold contains
  has_mode_guid-contains [] guid = refl
  has_mode_guid-contains ((key, mode) ∷ modes) guid =
      ground (arith, has_mode_guid-contains modes guid)

  -- the modes after one that was not there
  abbrev with_mode : Dict Mode → Mode → Dict Mode
  with_mode modes mode =
      insert (unique_mode_key lower_other fold_other modes mode.name mode.guid) mode modes

  unique_mode_key-fresh :
      (modes : Dict Mode) (mode : Mode)
      → contains (keys modes) (unique_mode_key lower_other fold_other modes mode.name mode.guid)
        ≡ false
  unfolding unique_mode_key
  unique_mode_key-fresh modes mode =
      unique_key-fresh (keys modes) (key_base lower_other fold_other mode.name mode.guid)
        (short_guid lower_other fold_other mode.guid)

  guids-append : (xs ys : Dict Mode) → guids (xs ++ ys) ≡ guids xs ++ guids ys
  guids-append [] ys = refl
  guids-append (x ∷ xs) ys = ap (λ t. fold x.1.guid ∷ t) (guids-append xs ys)

  with_mode-guids :
      (modes : Dict Mode) (mode : Mode)
      → guids (with_mode modes mode) ≡ guids modes ++ (fold mode.guid ∷ [])
  with_mode-guids modes mode =
      ap guids (insert-fresh _ mode modes (unique_mode_key-fresh modes mode)) ∙ guids-append modes _

  with_mode-lookup :
      (modes : Dict Mode) (mode : Mode) (k : Text) (v : Mode)
      → lookup k modes ≡ some v
      → lookup k (with_mode modes mode) ≡ some v
  with_mode-lookup modes mode k v h = ground (
    arith,
    lookup-insert (unique_mode_key lower_other fold_other modes mode.name mode.guid) k mode modes,
    ==_iff (unique_mode_key lower_other fold_other modes mode.name mode.guid) k,
    unique_mode_key-fresh modes mode,
    contains-keys k modes,
    λ (e : unique_mode_key lower_other fold_other modes mode.name mode.guid ≡ k).
        ap (contains (keys modes)) e,
  )

  -- every mode under its key stays; every GUID stays
  merge-lookup :
      (modes : Dict Mode) (ds : List Mode) (k : Text) (v : Mode)
      → lookup k modes ≡ some v
      → lookup k (merge modes ds) ≡ some v
  unfolding merge_discovered_modes
  merge-lookup modes [] k v h = h
  merge-lookup modes (d ∷ ds) k v h = ground (
    arith,
    merge-lookup modes ds k v,
    merge-lookup (with_mode modes d) ds k v,
    with_mode-lookup modes d k v h,
  )

  merge-keeps_guid :
      (modes : Dict Mode) (ds : List Mode) (g : Text)
      → contains (guids modes) g ≡ true
      → contains (guids (merge modes ds)) g ≡ true
  unfolding merge_discovered_modes
  merge-keeps_guid modes [] g h = h
  merge-keeps_guid modes (d ∷ ds) g h =
      elim (Bool-cases (has_mode_guid lower_other fold_other modes d.guid)) [
        | inl e ↦ rw (e) (merge-keeps_guid modes ds g h)
        | inr e ↦ rw (e) (
            merge-keeps_guid (with_mode modes d) ds g (
              rw (with_mode-guids modes d)
                (contains-append (guids modes) (fold d.guid ∷ []) g ∙ ground (arith, h))))
      ]

  with_mode-own_guid :
      (modes : Dict Mode) (d : Mode) → contains (guids (with_mode modes d)) (fold d.guid) ≡ true
  with_mode-own_guid modes d = rw (with_mode-guids modes d) (
      contains-append (guids modes) (fold d.guid ∷ []) (fold d.guid)
      ∙ unfold contains in ground (arith, ==_iff (fold d.guid) (fold d.guid)))

  abbrev Covers : Dict Mode → List Mode → Type 0
  Covers merged ds =
      All (λ (m : Mode). has_mode_guid lower_other fold_other merged m.guid ≡ true) ds

  merge-skips :
      (modes : Dict Mode) (d : Mode) (ds : List Mode)
      → has_mode_guid lower_other fold_other modes d.guid ≡ true
      → merge modes (d ∷ ds) ≡ merge modes ds
  unfolding merge_discovered_modes
  merge-skips modes d ds e = rw (e) refl

  merge-adds :
      (modes : Dict Mode) (d : Mode) (ds : List Mode)
      → has_mode_guid lower_other fold_other modes d.guid ≡ false
      → merge modes (d ∷ ds) ≡ merge (with_mode modes d) ds
  unfolding merge_discovered_modes
  merge-adds modes d ds e = rw (e) refl

  merge-Covers : (modes : Dict Mode) (ds : List Mode) → Covers (merge modes ds) ds
  merge-Covers modes [] = tt
  merge-Covers modes (d ∷ ds) =
      elim (Bool-cases (has_mode_guid lower_other fold_other modes d.guid)) [
        | inl e ↦
            subst (λ m. Covers m (d ∷ ds)) (sym (merge-skips modes d ds e))
              (
                has_mode_guid-contains (merge modes ds) d.guid
                    ∙ merge-keeps_guid modes ds (fold d.guid)
                        (sym (has_mode_guid-contains modes d.guid) ∙ e),
                merge-Covers modes ds,
              )
        | inr e ↦
            subst (λ m. Covers m (d ∷ ds)) (sym (merge-adds modes d ds e))
              (
                has_mode_guid-contains (merge (with_mode modes d) ds) d.guid
                    ∙ merge-keeps_guid (with_mode modes d) ds (fold d.guid)
                        (with_mode-own_guid modes d),
                merge-Covers (with_mode modes d) ds,
              )
      ]

  merge-distinct-guids :
      (modes : Dict Mode) (ds : List Mode)
      → distinct (guids modes) ≡ true
      → distinct (guids (merge modes ds)) ≡ true
  unfolding merge_discovered_modes
  merge-distinct-guids modes [] h = h
  merge-distinct-guids modes (d ∷ ds) h =
      elim (Bool-cases (has_mode_guid lower_other fold_other modes d.guid)) [
        | inl e ↦ rw (e) (merge-distinct-guids modes ds h)
        | inr e ↦ rw (e) (
            merge-distinct-guids (with_mode modes d) ds (
              rw (with_mode-guids modes d) (
                distinct-snoc (guids modes) (fold d.guid) h
                  (sym (has_mode_guid-contains modes d.guid) ∙ e))))
      ]

  -- Merging keeps every configured mode under its key and covers the GUID of every discovered plan.
  -- If no two configured modes have the same GUID, letter case aside, then no two modes of the
  -- result have.
  pub merge_discovered_modes_lem :
      (modes : Dict Mode) (discovered : List Mode)
      → ((k : Text) (v : Mode)
          → lookup k modes ≡ some v
          → lookup k (merge_discovered_modes lower_other fold_other modes discovered) ≡ some v)
        × All
            (λ (m : Mode).
              has_mode_guid lower_other fold_other
                (merge_discovered_modes lower_other fold_other modes discovered)
                m.guid
              ≡ true)
            discovered
        × (distinct (guids modes) ≡ true
            → distinct (guids (merge_discovered_modes lower_other fold_other modes discovered))
              ≡ true)
  merge_discovered_modes_lem modes discovered = (
    merge-lookup modes discovered,
    merge-Covers modes discovered,
    merge-distinct-guids modes discovered,
  )
