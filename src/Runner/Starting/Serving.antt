-- ===== src/Runner/Starting/Serving.antt =====
-- The actions that the runner serves after its start.
use home_pc_agent.Common.{
  Bool, true, false, ◌&&◌, Option, none, some, List, [], ◌∷◌, Text, codes, ◌==◌, Dict, lookup,
  insert, contains, lookup-insert, lookup-delete, Err, Result, ok, err, setting_error,
  nothing_available, is_empty, ◌≡◌, ◌≢◌, refl, subst, ==_iff, Bool-cases, inl, inr, arith,
  if◌then◌else◌,
}
use home_pc_agent.Runner.Settings.{OptionSettings, Action, resolved_entity_id}
use home_pc_agent.Runner.States.{Runtime, options_of}
use home_pc_agent.Runner.Starting.{
  Ready, skipped, refused, ready, skip_or, runtime_ready, runtime_of, action_ready, keep_runtime,
  is_refused, keep_found, ends_at, runtimes_after,
}

abbrev pub Every : (Text → Runtime → Type 0) → Dict Runtime → Type 0
Every P runtimes = (id : Text) (r : Runtime) → lookup id runtimes ≡ some r → P id r

-- an action of the configuration, under its own entity's id
abbrev pub IsConfigured : Dict Action → Text → Runtime → Type 0
IsConfigured actions id r =
    (r.entity_id ≡ id)
    × (resolved_entity_id r.action_key r.action ≡ id)
    × (lookup r.action_key actions ≡ some r.action)

-- options, if it is a select action
abbrev pub HasOptions : Text → Runtime → Type 0
HasOptions id r = (r.action.kind == codes "select") ≡ true → is_empty (options_of r) ≡ false

-- no action of these keys is refused
abbrev pub IsAccepting : (Text → Result (Dict OptionSettings)) → Dict Action → List Text → Type 0
IsAccepting discover actions ks =
    (key : Text) → contains ks key ≡ true → ends_at discover key (lookup key actions) ≡ false

-- the runtime that the round of an action stores
abbrev stored : Ready → Option Runtime
stored skipped = none
stored (refused r e) = some r
stored (ready r) = some r

put :
    (P : Text → Runtime → Type 0) (id : Text) (new : Runtime) (runtimes : Dict Runtime)
    → P id new
    → Every P runtimes
    → Every P (insert id new runtimes)
put P id new runtimes p all j r h = elim (Bool-cases (id == j)) [
  | inl e ↦
      let q : some new ≡ some r = rw (lookup-insert id j new runtimes, e) at h in
      subst (λ t. P t r) ((==_iff id j).0 e) (subst (P id) (cc q) p)
  | inr e ↦ all j r (rw (lookup-insert id j new runtimes, e) at h)
]

keep_runtime-Every :
    (P : Text → Runtime → Type 0) (id : Text) (d : Ready) (runtimes : Dict Runtime)
    → ((r : Runtime) → stored d ≡ some r → P id r)
    → Every P runtimes
    → Every P (keep_runtime id d runtimes)
unfolding keep_runtime
keep_runtime-Every P id skipped runtimes f all = λ j r h. elim (Bool-cases (id == j)) [
  | inl e ↦ absurd (let q : none ≡ some r = rw (lookup-delete id j runtimes, e) at h in cc q)
  | inr e ↦ all j r (rw (lookup-delete id j runtimes, e) at h)
]
keep_runtime-Every P id (refused r e) runtimes f all = put P id r runtimes (f r refl) all
keep_runtime-Every P id (ready r) runtimes f all = put P id r runtimes (f r refl) all

module _ (discover : Text → Result (Dict OptionSettings)) (actions : Dict Action) where
  -- what the round of this key stores has the property
  abbrev Stores : (Text → Runtime → Type 0) → Text → Option Action → Type 0
  Stores P key none = Unit
  Stores P key (some a) =
      (r : Runtime)
      → stored (action_ready key a (discover key)) ≡ some r
      → P (resolved_entity_id key a) r

  keep_found-Every :
      (P : Text → Runtime → Type 0) (key : Text) (found : Option Action) (runtimes : Dict Runtime)
      → Stores P key found
      → Every P runtimes
      → Every P (keep_found discover key found runtimes)
  keep_found-Every P key none runtimes f all = all
  keep_found-Every P key (some a) runtimes f all =
      keep_runtime-Every P (resolved_entity_id key a) (action_ready key a (discover key)) runtimes f
        all

  runtimes_after-Every :
      (P : Text → Runtime → Type 0) (ks : List Text) (runtimes : Dict Runtime)
      → ((key : Text) → contains ks key ≡ true → Stores P key (lookup key actions))
      → Every P runtimes
      → Every P (runtimes_after discover actions ks runtimes)
  unfolding runtimes_after contains
  runtimes_after-Every P [] runtimes f all = all
  runtimes_after-Every P (key ∷ rest) runtimes f all =
      let kept =
        keep_found-Every P key (lookup key actions) runtimes
          (f key (ground (arith, ==_iff key key))) all in
      elim (Bool-cases (ends_at discover key (lookup key actions))) [
        | inl e ↦ rw (e) kept
        | inr e ↦ rw (e) (
            runtimes_after-Every P rest (keep_found discover key (lookup key actions) runtimes)
              (λ k c. f k (ground (arith, c))) kept)
      ]

-- the runtime that a decision stores is the one that is decided of
skip_or-stored :
    (optional : Bool) (r r' : Runtime) (e : Err)
    → stored (if optional then skipped else refused r e) ≡ some r'
    → r ≡ r'
skip_or-stored true r r' e h = absurd (cc h)
skip_or-stored false r r' e h = cc h

ready-stored :
    (lacking : Bool) (r r' : Runtime) (e : Err)
    → stored (if lacking then skip_or r e else ready r) ≡ some r'
    → r ≡ r'
ready-stored true r r' e h = skip_or-stored r.action.optional r r' e h
ready-stored false r r' e h = cc h

action_ready-stored :
    (key : Text) (a : Action) (found : Result (Dict OptionSettings)) (r : Runtime)
    → stored (action_ready key a found) ≡ some r
    → (options : Dict OptionSettings) × (runtime_of key a options ≡ r)
unfolding action_ready runtime_ready
action_ready-stored key a (err e) r h =
    ([], skip_or-stored a.optional (runtime_of key a []) r (setting_error key e) h)
action_ready-stored key a (ok options) r h = (
  options,
  ready-stored (a.kind == codes "select" && is_empty (options_of (runtime_of key a options)))
      (runtime_of key a options) r (nothing_available key) h,
)

-- what is stored without a refusal has options
skip_or-not_stored :
    (optional : Bool) (r r' : Runtime) (e : Err)
    → is_refused (if optional then skipped else refused r e) ≡ false
    → stored (if optional then skipped else refused r e) ≢ some r'
skip_or-not_stored true r r' e f h = cc h
skip_or-not_stored false r r' e f h = cc f

ready-HasOptions :
    (lacking : Bool) (r r' : Runtime) (e : Err) (id : Text)
    → (r.action.kind == codes "select" && is_empty (options_of r)) ≡ lacking
    → is_refused (if lacking then skip_or r e else ready r) ≡ false
    → stored (if lacking then skip_or r e else ready r) ≡ some r'
    → HasOptions id r'
ready-HasOptions true r r' e id l f h = absurd (skip_or-not_stored r.action.optional r r' e f h)
ready-HasOptions false r r' e id l f h =
    let q : r ≡ r' = cc h in subst (HasOptions id) q (λ k. ground (arith, k, l))

action_ready-HasOptions :
    (key : Text) (a : Action) (found : Result (Dict OptionSettings)) (r : Runtime) (id : Text)
    → is_refused (action_ready key a found) ≡ false
    → stored (action_ready key a found) ≡ some r
    → HasOptions id r
unfolding action_ready runtime_ready
action_ready-HasOptions key a (err e) r id f h =
    absurd (skip_or-not_stored a.optional (runtime_of key a []) r (setting_error key e) f h)
action_ready-HasOptions key a (ok options) r id f h =
    ready-HasOptions (a.kind == codes "select" && is_empty (options_of (runtime_of key a options)))
      (runtime_of key a options) r (nothing_available key) id refl f h

none_stored : (P : Text → Runtime → Type 0) → Every P []
unfolding lookup
none_stored P id r h = absurd (cc h)

module _ (discover : Text → Result (Dict OptionSettings)) (actions : Dict Action) where
  Stores-IsConfigured :
      (key : Text) (found : Option Action)
      → lookup key actions ≡ found
      → Stores discover actions (IsConfigured actions) key found
  unfolding runtime_of
  Stores-IsConfigured key none e = tt
  Stores-IsConfigured key (some a) e = λ r h.
      let (options, q) = action_ready-stored key a (discover key) r h in
      subst (IsConfigured actions (resolved_entity_id key a)) q (refl, refl, e)

  Stores-HasOptions :
      (key : Text) (found : Option Action)
      → ends_at discover key found ≡ false
      → Stores discover actions HasOptions key found
  Stores-HasOptions key none f = tt
  Stores-HasOptions key (some a) f =
      λ r h. action_ready-HasOptions key a (discover key) r (resolved_entity_id key a) f h

  -- However far Start comes, and whatever the options getters return, the runner serves only
  -- actions of the configuration, each under its own entity's id. If no action is refused, then
  -- each select action that it serves has options.
  pub runtimes_after-IsConfigured :
      (ks : List Text)
      → Every (IsConfigured actions) (runtimes_after discover actions ks [])
        × (IsAccepting discover actions ks
            → Every HasOptions (runtimes_after discover actions ks []))
  runtimes_after-IsConfigured ks = (
    runtimes_after-Every discover actions (IsConfigured actions) ks []
        (λ key c. Stores-IsConfigured key (lookup key actions) refl)
        (none_stored (IsConfigured actions)),
    (λ accepting.
        runtimes_after-Every discover actions HasOptions ks []
          (λ key c. Stores-HasOptions key (lookup key actions) (accepting key c))
          (none_stored HasOptions)),
  )
