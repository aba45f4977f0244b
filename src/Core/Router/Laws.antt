-- ===== src/Core/Router/Laws.antt =====
-- The router hands a command to the handler that was subscribed for its entity, and to no other.
use home_pc_agent.Common.{
  ℕ, false, some, [], ◌∷◌, Text, ◌==◌, ==_iff, lookup, lookup-insert, lookup-delete, ok,
  no_command_handler, ◌≡◌, ◌≢◌, refl, arith, if◌then◌else◌, nat_eq,
}
use home_pc_agent.Core.Router.{Router, Command, Handler, Unsub, subscribe, call_unsub, route}

-- the command as the handler sees it
abbrev pub stamped : ℕ → Command → Command
stamped now c = if nat_eq c.received_at 0 then record c { received_at = now } else c

-- After a successful Subscribe, a command for that entity is answered by the new handler, and the
-- routing of every other command is unchanged.
pub route-subscribe :
    (now : ℕ) (id : Text) (h : Handler) (r : Router) (u : Unsub) (c : Command)
    → (subscribe id (some h) r).1 ≡ ok u
    → route now c (subscribe id (some h) r).0
      ≡ (if id == c.entity_id then h (stamped now c) else route now c r)
unfolding subscribe route
route-subscribe now [] h r u c e = cc
route-subscribe now (x ∷ id) h r u c e =
    ground (arith, lookup-insert (x ∷ id) c.entity_id h r.handlers, ==_iff (x ∷ id) c.entity_id)

-- The unsubscribe function of a subscription takes its handler away and touches no other; a
-- second call does nothing.
pub route-call_unsub :
    (now : ℕ) (u : Unsub) (r : Router) (c : Command)
    → u.done ≡ false
    → u.entity_id ≢ []
    → (route now c (call_unsub u r).1 ≡ (
        if u.entity_id == c.entity_id
        then some (no_command_handler u.entity_id)
        else route now c r))
      × (call_unsub (call_unsub u r).0 (call_unsub u r).1 ≡ call_unsub u r)
unfolding call_unsub route
route-call_unsub now u r c d n = (
  ground (arith, lookup-delete u.entity_id c.entity_id r.handlers, ==_iff u.entity_id c.entity_id),
  ground arith,
)

-- An entity has at most one handler: while one is subscribed, another Subscribe is refused and
-- leaves the router as it was.
pub subscribe_taken :
    (id : Text) (g h : Handler) (r : Router)
    → lookup id r.handlers ≡ some g
    → ((subscribe id (some h) r).0 ≡ r) × ((u : Unsub) → (subscribe id (some h) r).1 ≢ ok u)
unfolding subscribe
subscribe_taken [] g h r e = (refl, λ u q. cc)
subscribe_taken (x ∷ id) g h r e = (ground arith, λ u q. ground arith)
