-- ===== src/Core/Scope/Ownership.antt =====
-- A plugin reaches only the entities that it registered itself.
use home_pc_agent.Common.{
  Bool, true, false, ◌||◌, Option, none, some, List, [], ◌∷◌, Text, ◌==◌, ==_iff, lookup,
  lookup-insert, Result, ok, err, contains, ◌≡◌, ◌≢◌, refl, arith, if◌then◌else◌, Value, Bool-cases,
  inl, inr, sym, ◌∙◌,
}
use home_pc_agent.Entity.{Entity, Availability}
use home_pc_agent.Core.Registry.{Registry, register, add_new, update, replace, get}
use home_pc_agent.Core.Router.{Router, Handler, Unsub, subscribe, claim}
use home_pc_agent.Core.Scope.{
  Scope, World, HostCall, goes, registers_entity, updates_entity, publishes_state,
  sets_availability, subscribes_command, host_call, guarded, register_entity, update_entity,
  publish_state, set_availability, subscribe_command, go, add_id, owned_id, announce, subscribed,
  Script, finish, call, run_script,
}

contains-add_id :
    (id k : Text) (ids : List Text) → contains (add_id id ids) k ≡ (id == k || contains ids k)
unfolding add_id
contains-add_id id k ids = unfold contains in ground (arith, ==_iff id k)

-- Register changes the registry only by a new entry under an id that was free.
get-register :
    (e : Entity) (r : Registry) (k : Text)
    → ((register e r).1 ≡ none → (get e.id r ≡ none))
      × (get k (register e r).0 ≡ elim (register e r).1 [
        | none ↦ (if e.id == k then some e else get k r)
        | some _ ↦ get k r
      ])
unfolding register add_new get
get-register e r k = ((λ h. ground arith), ground (arith, lookup-insert e.id k e r.entities))

-- Update keeps the ids that are registered.
get-update :
    (e : Entity) (r : Registry) (k : Text)
    → get k (update e r).0
      ≡ elim (update e r).1 [ none ↦ (if e.id == k then some e else get k r) | some _ ↦ get k r ]
unfolding update replace get
get-update e r k = ground (arith, lookup-insert e.id k e r.entities)

-- `later` has the entity `k` and its handler as `w` has them.
abbrev pub SameAt : Text → World → World → Type 0
SameAt k w later =
    (get k later.registry ≡ get k w.registry)
    × (lookup k later.router.handlers ≡ lookup k w.router.handlers)

lookup-subscribe :
    (id k : Text) (f : Option Handler) (r : Router)
    → (id == k) ≡ false
    → lookup k (subscribe id f r).0.handlers ≡ lookup k r.handlers
unfolding subscribe claim
lookup-subscribe [] k f r h = refl
lookup-subscribe (c ∷ id) k none r h = refl
lookup-subscribe (c ∷ id) k (some f) r h = ground (arith, lookup-insert (c ∷ id) k f r.handlers)

ids-subscribed :
    (id : Text) (w : World) (r : Router) (res : Result Unsub)
    → ((subscribed id w r res).0.scope.entity_ids ≡ w.scope.entity_ids)
      × ((subscribed id w r res).0.registry ≡ w.registry)
      × ((subscribed id w r res).0.router ≡ r)
unfolding subscribed
ids-subscribed id w r (ok u) = (refl, refl, refl)
ids-subscribed id w r (err e) = (refl, refl, refl)

-- What a call does to the scope's ids, and to the entry at an id.
pub record Frame (k : Text) (w later : World) : Type 0 where
  pub grows : contains w.scope.entity_ids k ≡ true → contains later.scope.entity_ids k ≡ true
  pub stays : contains later.scope.entity_ids k ≡ false → SameAt k w later
  pub keeps : get k w.registry ≢ none → get k later.registry ≢ none
  pub fresh :
      contains later.scope.entity_ids k ≡ true
      → contains w.scope.entity_ids k ≡ false
      → get k w.registry ≡ none

Frame-self : (k : Text) (w : World) → Frame k w w
Frame-self k w = record {
  grows = λ h. h;
  stays = λ h. (refl, refl);
  keeps = λ h. h;
  fresh = λ h g. ground arith;
}

register-Frame : (e : Entity) (w : World) (k : Text) → Frame k w (register_entity e w).0
unfolding register_entity owned_id
register-Frame e w k = record {
  grows = λ h. ground (arith, contains-add_id e.id k w.scope.entity_ids);
  stays = λ h. (
    ground (arith, contains-add_id e.id k w.scope.entity_ids, (get-register e w.registry k).1),
    ground arith,
  );
  keeps = λ h. ground (arith, (get-register e w.registry k).1);
  fresh = λ h g. ground (
    arith,
    contains-add_id e.id k w.scope.entity_ids,
    (get-register e w.registry k).0,
    ==_iff e.id k,
  );
}

update-Frame : (e : Entity) (w : World) (k : Text) → Frame k w (update_entity e w).0
unfolding update_entity guarded
update-Frame e w k = record {
  grows = λ h. ground arith;
  stays = λ h. (ground (arith, get-update e w.registry k, ==_iff e.id k), ground arith);
  keeps = λ h. ground (arith, get-update e w.registry k);
  fresh = λ h g. ground arith;
}

publish-Frame : (id : Text) (v : Value) (w : World) (k : Text) → Frame k w (publish_state id v w).0
unfolding publish_state guarded announce get
publish-Frame id v w k = record {
  grows = λ h. ground arith;
  stays = λ h. (ground arith, ground arith);
  keeps = λ h. ground arith;
  fresh = λ h g. ground arith;
}

availability-Frame :
    (id : Text) (a : Availability) (w : World) (k : Text) → Frame k w (set_availability id a w).0
unfolding set_availability guarded announce get
availability-Frame id a w k = record {
  grows = λ h. ground arith;
  stays = λ h. (ground arith, ground arith);
  keeps = λ h. ground arith;
  fresh = λ h g. ground arith;
}

subscribe-Frame :
    (id : Text) (f : Option Handler) (w : World) (k : Text) → Frame k w (subscribe_command id f w).0
unfolding subscribe_command guarded
subscribe-Frame id f w k =
    let new = subscribe id f w.router in
    let parts = ids-subscribed id w new.0 new.1 in
    record {
      grows = λ h. ground (arith, parts);
      stays = λ h. (
        ground (arith, parts),
        ground (arith, parts, lookup-subscribe id k f w.router, ==_iff id k),
      );
      keeps = λ h. ground (arith, parts);
      fresh = λ h g. ground (arith, parts);
    }

go-Frame : (name : Text) (fn : Bool) (w : World) (k : Text) → Frame k w (go name fn w)
unfolding go
go-Frame name false w k = Frame-self k w
go-Frame name true w k = record {
  grows = λ h. ground arith;
  stays = λ h. (ground arith, ground arith);
  keeps = λ h. ground arith;
  fresh = λ h g. ground arith;
}

host_call-Frame : (c : HostCall) (w : World) (k : Text) → Frame k w (host_call c w).0
unfolding host_call
host_call-Frame (registers_entity e) w k = register-Frame e w k
host_call-Frame (updates_entity e) w k = update-Frame e w k
host_call-Frame (publishes_state id v) w k = publish-Frame id v w k
host_call-Frame (sets_availability id a) w k = availability-Frame id a w k
host_call-Frame (subscribes_command id f) w k = subscribe-Frame id f w k
host_call-Frame (goes name fn) w k = go-Frame name fn w k

Frame-trans : (k : Text) {u v w : World} → Frame k u v → Frame k v w → Frame k u w
Frame-trans k {u} {v} f g = record {
  grows = λ h. g.grows (f.grows h);
  stays = λ h. ground (arith, f.stays, g.stays h, f.grows, g.grows);
  keeps = λ h. g.keeps (f.keeps h);
  fresh = λ h o. elim (Bool-cases (contains v.scope.entity_ids k)) [
    | inl t ↦ f.fresh t o
    | inr n ↦ sym (f.stays n).0 ∙ g.fresh h n
  ];
}

pub run_script-Frame : (s : Script) (w : World) (k : Text) → Frame k w (run_script s w).0
unfolding run_script
run_script-Frame (finish e) w k = Frame-self k w
run_script-Frame (call c f) w k =
    let (w', error) = host_call c w in
    Frame-trans k (host_call-Frame c w k) (run_script-Frame (f error) w' k)

-- Another plugin's scope on the same registry: it has registered its entities, and none of them is
-- this scope's.
abbrev pub Apart : Scope → World → Type 0
Apart other w =
    (k : Text)
    → contains other.entity_ids k ≡ true
    → (get k w.registry ≢ none) × (contains w.scope.entity_ids k ≡ false)

-- Whatever a plugin does through its scope, it changes no entity and no handler of another
-- plugin's scope, and the two scopes never come to own the same entity.
pub run_script-isolated :
    (s : Script) (w : World) (other : Scope)
    → Apart other w
    → let later = (run_script s w).0 in
      Apart other later × ((k : Text) → contains other.entity_ids k ≡ true → SameAt k w later)
run_script-isolated s w other a = (
  (λ k o. ((run_script-Frame s w k).keeps (a k o).0, unowned k o)),
  (λ k o. (run_script-Frame s w k).stays (unowned k o)),
)
  where
    unowned :
        (k : Text)
        → contains other.entity_ids k ≡ true
        → contains (run_script s w).0.scope.entity_ids k ≡ false
    unowned k o = elim (Bool-cases (contains (run_script s w).0.scope.entity_ids k)) [
      | inl t ↦ absurd ((a k o).0 ((run_script-Frame s w k).fresh t (a k o).1))
      | inr f ↦ f
    ]
