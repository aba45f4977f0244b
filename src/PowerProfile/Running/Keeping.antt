-- ===== src/PowerProfile/Running/Keeping.antt =====
-- The options that the entity offers, through every signal, retry and command.
use home_pc_agent.Common.{
  Bool, true, false, ◌||◌, Option, none, some, List, [], ◌∷◌, map, Text, codes, ◌==◌, contains,
  distinct, all, Dict, lookup, Err, Result, ok, err, ◌>>=◌, ◌≡◌, refl, sym, ap, subst, ◌∙◌, arith,
  Bool-cases, inl, inr,
}
use home_pc_agent.Entity.{Choice}
use home_pc_agent.Entity.Options.{values}
use home_pc_agent.Selects.Sorting.{
  in_order, sort_choices-in_order, values-sort, distinct-values-sort,
}
use home_pc_agent.PowerProfile.{
  Service, services, Snapshot, Property, plain, string_variant, other_variant, entries, active_of,
  snapshot_of, parse_profiles, parse_found, parse_snapshot, friendly_profile_name, Loaded, answered,
  unanswered, load_one, load_from, load, Plugin, profile_options, lost, apply_loaded, is_from,
  with_profiles, changed_profiles, restate, changed_active, apply_changes,
}
use home_pc_agent.PowerProfile.Parsing.{are_ids, has_text, parse_profiles_lem}
use home_pc_agent.PowerProfile.Steady.{
  publish_active-options, set_profiles-fields, apply_snapshot-fields,
}
use home_pc_agent.PowerProfile.Running.{
  Signal, owner_changed, properties_changed, malformed, other_signal, Turn, context_done,
  signals_closed, tick, received, is_service_name, reload, handle_signal, retry, watch,
}

no_empty : (ids : List Text) → all has_text ids ≡ true → contains ids [] ≡ false
unfolding all contains ◌==◌
no_empty [] h = refl
no_empty ([] ∷ ids) h = absurd (ground (arith, h))
no_empty ((c ∷ t) ∷ ids) h = no_empty ids h

parsed-are_ids :
    (value : Property) (ids : List Text) → parse_profiles value ≡ ok ids → are_ids ids ≡ true
unfolding parse_profiles
parsed-are_ids (plain (string_variant s)) ids h = absurd (ground (arith, h))
parsed-are_ids (plain (other_variant s)) ids h = absurd (ground (arith, h))
parsed-are_ids (entries es) ids h = ((parse_profiles_lem es).0 ids h).1

snapshot-are_ids :
    (found : Result (List Text)) (active : Option Text) (snap : Snapshot)
    → ((ids : List Text) → found ≡ ok ids → are_ids ids ≡ true)
    → (found >>= λ ids. snapshot_of ids active) ≡ ok snap
    → are_ids snap.profiles ≡ true
snapshot-are_ids (err e) active snap p h = absurd (ground (arith, h))
snapshot-are_ids (ok ids) none snap p h = absurd (ground (arith, h))
snapshot-are_ids (ok ids) (some active) snap p h =
    let e : record { profiles = ids; active = active } ≡ snap = cc h in
    subst (λ (s : Snapshot). are_ids s.profiles ≡ true) e (p ids refl)

found-are_ids :
    (props : Dict Property) (value : Option Property) (snap : Snapshot)
    → parse_found props value ≡ ok snap
    → are_ids snap.profiles ≡ true
found-are_ids props none snap h = absurd (ground (arith, h))
found-are_ids props (some value) snap h =
    snapshot-are_ids (parse_profiles value) (active_of (lookup (codes "ActiveProfile") props)) snap
      (parsed-are_ids value) h

answer-are_ids :
    (answer : Result (Dict Property)) (snap : Snapshot)
    → (answer >>= parse_snapshot) ≡ ok snap
    → are_ids snap.profiles ≡ true
unfolding parse_snapshot
answer-are_ids (err e) snap h = absurd (ground (arith, h))
answer-are_ids (ok props) snap h = found-are_ids props (lookup (codes "Profiles") props) snap h

abbrev Sound : Loaded → Type 0
Sound (answered svc snap) = are_ids snap.profiles ≡ true
Sound (unanswered errs) = Unit

load_one-Sound :
    (svc : Service) (found : Result Snapshot) (next : Option Err → Loaded) (errs : Option Err)
    → ((snap : Snapshot) → found ≡ ok snap → are_ids snap.profiles ≡ true)
    → ((errors : Option Err) → Sound (next errors))
    → Sound (load_one svc found next errs)
load_one-Sound svc (ok snap) next errs s n = s snap refl
load_one-Sound svc (err e) next errs s n = n _

load_from-Sound :
    (get_all : Service → Result (Dict Property)) (svcs : List Service) (errs : Option Err)
    → Sound (load_from get_all svcs errs)
unfolding load_from
load_from-Sound get_all [] errs = tt
load_from-Sound get_all (svc ∷ svcs) errs =
    load_one-Sound svc (get_all svc >>= parse_snapshot) (load_from get_all svcs) errs
      (answer-are_ids (get_all svc)) (load_from-Sound get_all svcs)

load-Sound : (get_all : Service → Result (Dict Property)) → Sound (load get_all)
unfolding load
load-Sound get_all = load_from-Sound get_all services none

module _ (lower : Text → Text) where
  -- in order, no value twice, and none empty
  abbrev pub IsSteady : List Choice → Type 0
  IsSteady os =
      (in_order lower os ≡ true) × (distinct (values os) ≡ true) × (contains (values os) [] ≡ false)

  abbrev unsorted : List Text → List Choice
  unsorted = map (λ id. record { value = id; name = friendly_profile_name id })

  values-unsorted : (ids : List Text) → values (unsorted ids) ≡ ids
  values-unsorted [] = refl
  values-unsorted (id ∷ ids) = ap (λ t. id ∷ t) (values-unsorted ids)

  pub profile_options-IsSteady :
      (ids : List Text) → are_ids ids ≡ true → IsSteady (profile_options lower ids)
  unfolding profile_options
  profile_options-IsSteady ids h = (
    sort_choices-in_order lower (unsorted ids),
    distinct-values-sort lower (unsorted ids)
        (ap distinct (values-unsorted ids) ∙ ground (arith, h)),
    values-sort lower (unsorted ids) []
        ∙ ap (λ t. contains t []) (values-unsorted ids)
        ∙ no_empty ids (ground (arith, h)),
  )

  lost-options : (s : Option Service) (p : Plugin) → (lost lower s p).options ≡ p.options
  lost-options none p = refl
  lost-options (some svc) p = refl

  apply_loaded-IsSteady :
      (loaded : Loaded) (p : Plugin)
      → Sound loaded
      → IsSteady p.options
      → IsSteady (apply_loaded lower loaded p).options
  unfolding apply_loaded
  apply_loaded-IsSteady (answered svc snap) p s h =
      subst IsSteady (sym (apply_snapshot-fields lower svc snap p).0)
        (profile_options-IsSteady snap.profiles s)
  apply_loaded-IsSteady (unanswered errs) p s h = subst IsSteady (sym (lost-options p.service p)) h

  with_profiles-IsSteady :
      (found : Result (List Text)) (p : Plugin)
      → ((ids : List Text) → found ≡ ok ids → are_ids ids ≡ true)
      → IsSteady p.options
      → IsSteady (with_profiles lower found p).0.options
  with_profiles-IsSteady (err e) p s h = h
  with_profiles-IsSteady (ok ids) p s h =
      subst IsSteady (sym (set_profiles-fields lower ids p).0)
        (profile_options-IsSteady ids (s ids refl))

  changed_profiles-IsSteady :
      (value : Option Property) (p : Plugin)
      → IsSteady p.options
      → IsSteady (changed_profiles lower value p).0.options
  changed_profiles-IsSteady none p h = h
  changed_profiles-IsSteady (some value) p h =
      with_profiles-IsSteady (parse_profiles value) p (parsed-are_ids value) h

  restate-IsSteady : (r : Plugin × Bool) → IsSteady r.0.options → IsSteady (restate lower r).options
  restate-IsSteady (p, true) h = subst IsSteady (sym (publish_active-options p.active p)) h
  restate-IsSteady (p, false) h = h

  changed_active-IsSteady :
      (active : Option Text) (r : Plugin × Bool)
      → IsSteady r.0.options
      → IsSteady (changed_active lower active r).options
  changed_active-IsSteady none (p, u) h = restate-IsSteady (p, u) h
  changed_active-IsSteady (some []) (p, u) h = restate-IsSteady (p, u) h
  changed_active-IsSteady (some (c ∷ active)) (p, u) h =
      subst IsSteady (sym (publish_active-options (c ∷ active) p)) h

  apply_changes-IsSteady :
      (path interface_name : Text) (changed : Dict Property) (p : Plugin)
      → IsSteady p.options
      → IsSteady (apply_changes lower path interface_name changed p).options
  unfolding apply_changes
  apply_changes-IsSteady path interface_name changed p h =
      elim (Bool-cases (is_from lower path interface_name p.service)) [
        | inl e ↦ rw (e) (
            changed_active-IsSteady (active_of (lookup (codes "ActiveProfile") changed))
              (changed_profiles lower (lookup (codes "Profiles") changed) p)
              (changed_profiles-IsSteady (lookup (codes "Profiles") changed) p h))
        | inr e ↦ rw (e) h
      ]

  reload-IsSteady :
      (get_all : Service → Result (Dict Property)) (p : Plugin)
      → IsSteady p.options
      → IsSteady (reload lower get_all p).options
  reload-IsSteady get_all p h = apply_loaded-IsSteady (load get_all) p (load-Sound get_all) h

  handle_signal-IsSteady :
      (get_all : Service → Result (Dict Property)) (s : Signal) (p : Plugin)
      → IsSteady p.options
      → IsSteady (handle_signal lower get_all s p).options
  unfolding handle_signal
  handle_signal-IsSteady get_all (owner_changed name) p h =
      elim (Bool-cases (is_service_name services name)) [
        | inl e ↦ rw (e) (reload-IsSteady get_all p h)
        | inr e ↦ rw (e) h
      ]
  handle_signal-IsSteady get_all (properties_changed path interface_name changed gone) p h =
      elim (Bool-cases
        (contains gone (codes "ActiveProfile") || contains gone (codes "Profiles"))) [
          | inl e ↦ rw (e) (reload-IsSteady get_all p h)
          | inr e ↦ rw (e) (apply_changes-IsSteady path interface_name changed p h)
        ]
  handle_signal-IsSteady get_all malformed p h = h
  handle_signal-IsSteady get_all other_signal p h = h

  retry-IsSteady :
      (get_all : Service → Result (Dict Property)) (s : Option Service) (p : Plugin)
      → IsSteady p.options
      → IsSteady (retry lower get_all s p).options
  retry-IsSteady get_all none p h = reload-IsSteady get_all p h
  retry-IsSteady get_all (some svc) p h = h

  -- Whatever signals come and whatever the services answer, the options that the plugin offers stay
  -- in order, with no value twice and none empty.
  pub watch-IsSteady :
      (turns : List (Turn × (Service → Result (Dict Property)))) (p : Plugin)
      → IsSteady p.options
      → IsSteady (watch lower turns p).options
  unfolding watch
  watch-IsSteady [] p h = h
  watch-IsSteady ((context_done, get_all) ∷ turns) p h = h
  watch-IsSteady ((signals_closed, get_all) ∷ turns) p h = h
  watch-IsSteady ((received s, get_all) ∷ turns) p h =
      watch-IsSteady turns (handle_signal lower get_all s p) (handle_signal-IsSteady get_all s p h)
  watch-IsSteady ((tick, get_all) ∷ turns) p h =
      watch-IsSteady turns (retry lower get_all p.service p) (retry-IsSteady get_all p.service p h)
