-- ===== src/PowerProfile/Steady.antt =====
-- What holds of the plugin's state through every signal, retry and command.
use home_pc_agent.Common.{
  Bool, true, false, Option, none, some, List, [], ◌∷◌, Text, ==_iff, ==_refl, Err, ◌≡◌, refl, sym,
  ap, ap₂, ◌∙◌, arith, Bool-cases, inl, inr, if◌then◌else◌, is_some,
}
use home_pc_agent.Entity.{Choice, unavailable}
use home_pc_agent.Core.Scope.{World, update_entity, set_availability}
use home_pc_agent.PowerProfile.{
  Service, entity_id, Snapshot, Plugin, Loaded, answered, unanswered, same_options, profile_options,
  updated, set_profiles, set_online, publish_active, online_unless, apply_snapshot, lost,
  apply_loaded, profile_entity,
}

choice_path : (o p : Choice) → o.value ≡ p.value → o.name ≡ p.name → o ≡ p
choice_path o p v n = ap₂ (λ a b. record { value = a; name = b }) v n

same_options_refl : (os : List Choice) → same_options os os ≡ true
unfolding same_options
same_options_refl [] = refl
same_options_refl (o ∷ os) = ground (arith, ==_refl o.value, ==_refl o.name, same_options_refl os)

same_options_sound : (os ps : List Choice) → same_options os ps ≡ true → os ≡ ps
unfolding same_options
same_options_sound [] [] h = refl
same_options_sound [] (p ∷ ps) h = absurd (ground (arith, h))
same_options_sound (o ∷ os) [] h = absurd (ground (arith, h))
same_options_sound (o ∷ os) (p ∷ ps) h =
    ap₂ ◌∷◌
      (choice_path o p (ground (arith, h, ==_iff o.value p.value))
        (ground (arith, h, ==_iff o.name p.name)))
      (same_options_sound os ps (ground (arith, h)))

pub publish_active-options :
    (active : Text) (p : Plugin) → (publish_active active p).options ≡ p.options
unfolding publish_active
publish_active-options [] p = refl
publish_active-options (c ∷ active) p = refl

publish_active-service :
    (active : Text) (p : Plugin) → (publish_active active p).service ≡ p.service
unfolding publish_active
publish_active-service [] p = refl
publish_active-service (c ∷ active) p = refl

publish_active-active : (active : Text) (p : Plugin) → (publish_active active p).active ≡ active
unfolding publish_active
publish_active-active [] p = refl
publish_active-active (c ∷ active) p = refl

module _ (lower : Text → Text) where
  updated-fields :
      (p : Plugin) (r : World × Option Err)
      → ((updated lower p r).0.options ≡ p.options) × ((updated lower p r).0.service ≡ p.service)
  unfolding set_online
  updated-fields p (w, none) = (refl, refl)
  updated-fields p (w, some e) = (refl, refl)

  -- The options become those of the profiles, whatever UpdateEntity returns.
  pub set_profiles-fields :
      (ids : List Text) (p : Plugin)
      → ((set_profiles lower ids p).0.options ≡ profile_options lower ids)
        × ((set_profiles lower ids p).0.service ≡ p.service)
  unfolding set_profiles
  set_profiles-fields ids p =
      elim (Bool-cases (same_options (profile_options lower ids) p.options)) [
        | inl h ↦ rw (h) (sym (same_options_sound (profile_options lower ids) p.options h), refl)
        | inr h ↦ rw (h) (
            updated-fields (record p { options = profile_options lower ids })
              (update_entity (profile_entity (profile_options lower ids)) p.world))
      ]

  set_profiles-same :
      (ids : List Text) (p : Plugin)
      → p.options ≡ profile_options lower ids
      → set_profiles lower ids p ≡ (p, false)
  unfolding set_profiles
  set_profiles-same ids p h =
      let e : same_options (profile_options lower ids) p.options ≡ true =
        ap (same_options (profile_options lower ids)) h
        ∙ same_options_refl (profile_options lower ids) in
      rw (e) refl

  -- Setting the same profiles again makes no call, not even when UpdateEntity failed the first time.
  pub set_profiles-again :
      (ids : List Text) (p : Plugin)
      → set_profiles lower ids (set_profiles lower ids p).0 ≡ ((set_profiles lower ids p).0, false)
  set_profiles-again ids p =
      set_profiles-same ids (set_profiles lower ids p).0 (set_profiles-fields ids p).0

  online_unless-fields :
      (r : Plugin × Bool)
      → ((online_unless lower r).options ≡ r.0.options)
        × ((online_unless lower r).service ≡ r.0.service)
  unfolding set_online
  online_unless-fields (p, true) = (refl, refl)
  online_unless-fields (p, false) = (refl, refl)

  pub apply_snapshot-fields :
      (svc : Service) (snap : Snapshot) (p : Plugin)
      → ((apply_snapshot lower svc snap p).options ≡ profile_options lower snap.profiles)
        × ((apply_snapshot lower svc snap p).service ≡ some svc)
        × ((apply_snapshot lower svc snap p).active ≡ snap.active)
  unfolding apply_snapshot
  apply_snapshot-fields svc snap p =
      let q = record p { service = some svc } in
      let r = set_profiles lower snap.profiles q in
      (
        publish_active-options snap.active (online_unless lower r)
            ∙ (online_unless-fields r).0
            ∙ (set_profiles-fields snap.profiles q).0,
        publish_active-service snap.active (online_unless lower r)
            ∙ (online_unless-fields r).1
            ∙ (set_profiles-fields snap.profiles q).1,
        publish_active-active snap.active (online_unless lower r),
      )

  -- A reload that is answered leaves the plugin with that service, its active profile, and the
  -- options of its profiles. One that is not answered keeps the options and the active profile, and
  -- changes the world only when there was a service, to announce that the entity is unavailable.
  pub apply_loaded_lem :
      (loaded : Loaded) (p : Plugin)
      → ((svc : Service) (snap : Snapshot)
          → loaded ≡ answered svc snap
          → ((apply_loaded lower loaded p).options ≡ profile_options lower snap.profiles)
            × ((apply_loaded lower loaded p).service ≡ some svc)
            × ((apply_loaded lower loaded p).active ≡ snap.active))
        × ((errs : Option Err)
            → loaded ≡ unanswered errs
            → ((apply_loaded lower loaded p).service ≡ none)
              × ((apply_loaded lower loaded p).options ≡ p.options)
              × ((apply_loaded lower loaded p).active ≡ p.active)
              × ((apply_loaded lower loaded p).world ≡ (
                  if is_some p.service
                  then (set_availability entity_id unavailable p.world).0
                  else p.world)))
  unfolding apply_loaded
  apply_loaded_lem loaded p = (
    (λ svc snap h. rw (h) (apply_snapshot-fields svc snap p)),
    (λ errs h. rw (h) (lost-fields p.service refl)),
  )
    where
      lost-fields :
          (s : Option Service)
          → p.service ≡ s
          → ((lost lower s p).service ≡ none)
            × ((lost lower s p).options ≡ p.options)
            × ((lost lower s p).active ≡ p.active)
            × ((lost lower s p).world ≡ (
                if is_some s then (set_availability entity_id unavailable p.world).0 else p.world))
      lost-fields none h = (h, refl, refl, refl)
      lost-fields (some svc) h = (refl, refl, refl, refl)
