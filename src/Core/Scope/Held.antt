-- ===== src/Core/Scope/Held.antt =====
-- The handlers of a scope: every handler that it subscribed is taken away when it closes.
use home_pc_agent.Common.{
  Bool, true, false, ◌||◌, Option, none, some, List, [], ◌∷◌, ◌++◌, Text, ◌==◌, Dict, lookup,
  insert, lookup-insert, Err, contains, contains-append, ◌≡◌, refl, arith, Bool-cases, ap, inl, inr,
  ◌∙◌,
}
use home_pc_agent.Core.Router.{Handler, Unsub, subscribe, claim}
use home_pc_agent.Core.Scope.{
  World, HostCall, goes, registers_entity, updates_entity, publishes_state, sets_availability,
  subscribes_command, host_call, guarded, register_entity, update_entity, publish_state,
  set_availability, subscribe_command, go, owned_id, announce, subscribed, append_unsub, unsubs_of,
  flatten_unsubs, Script, finish, call, run_script,
}
use home_pc_agent.Core.Scope.Releases.{pending, held}

pending-append : (us vs : List Unsub) → pending (us ++ vs) ≡ pending us ++ pending vs
unfolding pending
pending-append [] vs = refl
pending-append (u ∷ us) vs = ground (arith, pending-append us vs)

contains-pending-append :
    (us vs : List Unsub) (k : Text)
    → contains (pending (us ++ vs)) k ≡ (contains (pending us) k || contains (pending vs) k)
contains-pending-append us vs k =
    ground (arith, pending-append us vs, contains-append (pending us) (pending vs) k)

contains-pending-one :
    (u : Unsub) (k : Text) → u.done ≡ false → contains (pending (u ∷ [])) k ≡ (u.entity_id == k)
unfolding pending contains
contains-pending-one u k d = ground arith

contains-held_insert :
    (id k : Text) (u : Unsub) (o : Option (List Unsub)) (m : Dict (List Unsub))
    → u.done ≡ false
    → lookup id m ≡ o
    → contains (pending (flatten_unsubs (insert id (unsubs_of o ++ u ∷ []) m))) k
      ≡ (u.entity_id == k || contains (pending (flatten_unsubs m)) k)
unfolding lookup insert flatten_unsubs
contains-held_insert id k u none [] d h =
    contains-pending-append (u ∷ []) [] k
    ∙ ap (λ (b : Bool). b || contains (pending []) k) (contains-pending-one u k d)
contains-held_insert id k u (some us) [] d h = absurd (ground arith)
contains-held_insert id k u o ((j, us) ∷ m) d h = ground (
  arith,
  contains-held_insert id k u o m d,
  contains-pending-append (us ++ u ∷ []) (flatten_unsubs m) k,
  contains-pending-append us (u ∷ []) k,
  contains-pending-one u k d,
  contains-pending-append us (flatten_unsubs m) k,
  contains-pending-append us (flatten_unsubs (insert id (unsubs_of o ++ u ∷ []) m)) k,
)

contains-append_unsub :
    (id k : Text) (u : Unsub) (m : Dict (List Unsub))
    → u.done ≡ false
    → contains (pending (flatten_unsubs (append_unsub id u m))) k
      ≡ (u.entity_id == k || contains (pending (flatten_unsubs m)) k)
unfolding append_unsub
contains-append_unsub id k u m d = contains-held_insert id k u (lookup id m) m d refl

-- What a call does to the handler at an id, and to what the scope holds.
pub record HeldFrame (k : Text) (w later : World) : Type 0 where
  pub grows : contains (held w.scope) k ≡ true → contains (held later.scope) k ≡ true
  pub stays :
      contains (held later.scope) k ≡ false
      → lookup k later.router.handlers ≡ lookup k w.router.handlers

claim_held :
    (id k : Text) (f : Handler) (o : Option Handler) (w : World)
    → let new = claim o id f w.router in HeldFrame k w (subscribed id w new.0 new.1).0
unfolding claim subscribed
claim_held id k f (some g) w = record { grows = λ h. h; stays = λ h. refl }
claim_held id k f none w =
    let u : Unsub = record { entity_id = id; done = false } in
    record {
      grows = λ h. ground (arith, contains-append_unsub id k u w.scope.unsubs refl);
      stays = λ h. ground (
        arith,
        contains-append_unsub id k u w.scope.unsubs refl,
        lookup-insert id k f w.router.handlers,
      );
    }

subscribe_held :
    (id k : Text) (f : Option Handler) (w : World)
    → let new = subscribe id f w.router in HeldFrame k w (subscribed id w new.0 new.1).0
unfolding subscribe subscribed
subscribe_held [] k f w = record { grows = λ h. h; stays = λ h. refl }
subscribe_held (c ∷ id) k none w = record { grows = λ h. h; stays = λ h. refl }
subscribe_held (c ∷ id) k (some f) w = claim_held (c ∷ id) k f (lookup (c ∷ id) w.router.handlers) w

guarded_held :
    (id k : Text) (w : World) (run : World × Option Err)
    → HeldFrame k w run.0
    → HeldFrame k w (guarded id w run).0
unfolding guarded
guarded_held id k w run h = record {
  grows = λ g. ground (arith, h.grows);
  stays = λ g. ground (arith, h.stays);
}

unchanged :
    (k : Text) (w later : World)
    → later.scope.unsubs ≡ w.scope.unsubs
    → later.router ≡ w.router
    → HeldFrame k w later
unchanged k w later e f = record { grows = λ h. ground arith; stays = λ h. ground arith }

host_call-HeldFrame : (c : HostCall) (w : World) (k : Text) → HeldFrame k w (host_call c w).0
unfolding host_call register_entity owned_id update_entity publish_state set_availability announce
    subscribe_command go
host_call-HeldFrame (registers_entity e) w k = unchanged k w _ (ground arith) (ground arith)
host_call-HeldFrame (updates_entity e) w k = guarded_held e.id k w _ (unchanged k w _ refl refl)
host_call-HeldFrame (publishes_state id v) w k = guarded_held id k w _ (unchanged k w _ refl refl)
host_call-HeldFrame (sets_availability id a) w k = guarded_held id k w _ (unchanged k w _ refl refl)
host_call-HeldFrame (subscribes_command id f) w k = guarded_held id k w _ (subscribe_held id k f w)
host_call-HeldFrame (goes name false) w k = unchanged k w w refl refl
host_call-HeldFrame (goes name true) w k = unchanged k w _ (ground arith) (ground arith)

held_trans : (k : Text) {u v w : World} → HeldFrame k u v → HeldFrame k v w → HeldFrame k u w
held_trans k {u} {v} f g = record {
  grows = λ h. g.grows (f.grows h);
  stays = λ h. elim (Bool-cases (contains (held v.scope) k)) [
    | inl t ↦ absurd (ground (arith, g.grows t))
    | inr n ↦ g.stays h ∙ f.stays n
  ];
}

pub run_script-HeldFrame : (s : Script) (w : World) (k : Text) → HeldFrame k w (run_script s w).0
unfolding run_script
run_script-HeldFrame (finish e) w k = unchanged k w w refl refl
run_script-HeldFrame (call c f) w k =
    let (w', error) = host_call c w in
    held_trans k (host_call-HeldFrame c w k) (run_script-HeldFrame (f error) w' k)
