-- ===== src/Core/Scope/Releases.antt =====
-- What closing a scope takes away.
use home_pc_agent.Common.{
  Bool, true, false, none, some, List, [], ◌∷◌, Text, ◌==◌, ==_iff, lookup, lookup-delete,
  scope_closed, contains, ◌≡◌, refl, arith, if◌then◌else◌,
}
use home_pc_agent.Core.Registry.{Registry, remove, drop_found, get}
use home_pc_agent.Core.Router.{Router, Unsub, call_unsub}
use home_pc_agent.Core.Scope.{
  Scope, World, WaitEnd, HostCall, goes, registers_entity, updates_entity, publishes_state,
  sets_availability, subscribes_command, host_call, register_entity, update_entity, publish_state,
  set_availability, subscribe_command, go, close_scope, call_unsubs, remove_all, flatten_unsubs,
}

get-remove :
    (id k : Text) (r : Registry) → get k (remove id r).0 ≡ (if id == k then none else get k r)
unfolding get remove drop_found
get-remove id k r = ground (arith, lookup-delete id k r.entities, ==_iff id k)

get-remove_all :
    (ids : List Text) (k : Text) (r : Registry)
    → get k (remove_all ids r) ≡ (if contains ids k then none else get k r)
unfolding remove_all contains
get-remove_all [] k r = refl
get-remove_all (id ∷ ids) k r =
    ground (arith, get-remove_all ids k (remove id r).0, get-remove id k r)

-- the ids of the handlers that unsubscribe functions would take away
unfoldable pub pending : List Unsub → List Text
pending [] = []
pending (u ∷ us) = let rest = pending us in if u.done then rest else u.entity_id ∷ rest

abbrev pub held : Scope → List Text
held s = pending (flatten_unsubs s.unsubs)

lookup-call_unsubs :
    (us : List Unsub) (k : Text) (r : Router)
    → lookup k (call_unsubs us r).handlers
      ≡ (if contains (pending us) k then none else lookup k r.handlers)
unfolding call_unsubs call_unsub pending contains
lookup-call_unsubs [] k r = refl
lookup-call_unsubs (u ∷ us) k r =
    ground
      (arith, lookup-call_unsubs us k (call_unsub u r).1, lookup-delete u.entity_id k r.handlers)

-- Closing an open scope takes from the registry exactly the entities that it registered and from
-- the router exactly the handlers that it subscribed; all else is as before. However the wait for
-- its tasks ends, the scope is then closed, its context is canceled and it owns nothing.
pub close_scope_releases :
    (end : WaitEnd) (w : World)
    → w.scope.closed ≡ false
    → let w' = (close_scope end w).0 in
      ((k : Text)
        → get k w'.registry ≡ (if contains w.scope.entity_ids k then none else get k w.registry))
      × ((k : Text)
          → lookup k w'.router.handlers
            ≡ (if contains (held w.scope) k then none else lookup k w.router.handlers))
      × (w'.scope.closed ≡ true)
      × (w'.scope.context_canceled ≡ true)
      × (w'.scope.entity_ids ≡ [])
      × (w'.scope.unsubs ≡ [])
unfolding close_scope
close_scope_releases end w o = (
  (λ k. ground (arith, get-remove_all w.scope.entity_ids k w.registry)),
  (λ k. ground (arith, lookup-call_unsubs (flatten_unsubs w.scope.unsubs) k w.router)),
  ground arith,
  ground arith,
  ground arith,
  ground arith,
)

-- the calls that return an error
abbrev pub reports : HostCall → Bool
reports (goes _ _) = false
reports _ = true

-- A closed scope is inert: every call of its plugin, and a second Close, leaves the registry, the
-- router, the bus and the scope as they are; each call that can return an error says that the
-- scope is closed.
pub closed_scope_inert :
    (c : HostCall) (end : WaitEnd) (w : World)
    → w.scope.closed ≡ true
    → ((host_call c w).0 ≡ w)
      × (reports c ≡ true → (host_call c w).1 ≡ some (scope_closed w.scope.plugin_id))
      × (close_scope end w ≡ (w, none))
unfolding host_call close_scope register_entity update_entity publish_state set_availability
    subscribe_command go
closed_scope_inert (registers_entity e) end w h = (ground arith, (λ _. ground arith), ground arith)
closed_scope_inert (updates_entity e) end w h = (ground arith, (λ _. ground arith), ground arith)
closed_scope_inert (publishes_state id v) end w h =
    (ground arith, (λ _. ground arith), ground arith)
closed_scope_inert (sets_availability id a) end w h =
    (ground arith, (λ _. ground arith), ground arith)
closed_scope_inert (subscribes_command id f) end w h =
    (ground arith, (λ _. ground arith), ground arith)
closed_scope_inert (goes name false) end w h = (refl, (λ q. cc), ground arith)
closed_scope_inert (goes name true) end w h = (ground arith, (λ q. cc), ground arith)
