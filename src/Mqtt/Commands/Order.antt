-- ===== src/Mqtt/Commands/Order.antt =====
-- The commands of one entity are routed in the order in which they arrived; only those that meet a
-- full queue are missing.
use home_pc_agent.Common.{
  Option, none, some, List, [], ◌∷◌, ◌++◌, Text, lookup, Value, Result, ◌≡◌, refl, sym, ap, subst,
  ◌∙◌, append_assoc, append-nil,
}
use home_pc_agent.Core.Router.{Command}
use home_pc_agent.Mqtt.Transport.{Transport}
use home_pc_agent.Mqtt.Commands.{
  Pipeline, Turn, message, dispatches, works, turn, on_message, command_loop, worker_loop, offer,
  offered, accept, queue_of, command_queue_capacity,
}
use home_pc_agent.Mqtt.Commands.Sublists.{
  ◌⊑◌, ⊑_refl, ⊑_trans, ⊑_empty, ⊑_append, for_entity, for_entity-append, for_entity-⊑,
}
use home_pc_agent.Mqtt.Commands.Traces.{
  trace, addressed, IsAddressed, offer-⊑, hand_over_trace, hand_over-IsAddressed, worker_trace,
  worker-IsAddressed,
}

abbrev pub as_list : Option Command → List Command
as_list none = []
as_list (some c) = c ∷ []

offered_trace :
    (id : Text) (o : Option Command) (p : Pipeline)
    → trace id (offered o p) ⊑ trace id p ++ for_entity id (as_list o)
offered_trace id none p =
    unfold for_entity in
    subst (λ x. trace id p ⊑ x) (sym (append-nil (trace id p))) (⊑_refl (trace id p))
offered_trace id (some c) p =
    let a = for_entity id p.routed in
    let b = queue_of (lookup id p.workers) in
    let f = for_entity id p.commands in
    let g = for_entity id (c ∷ []) in
    let f' = for_entity id (offer command_queue_capacity c p.commands) in
    subst (λ x. a ++ (b ++ f') ⊑ x)
      (sym (append_assoc a (b ++ f) g ∙ ap (λ x. a ++ x) (append_assoc b f g)))
      (⊑_append (⊑_refl a) (
        ⊑_append (⊑_refl b) (
          subst (λ x. f' ⊑ x) (for_entity-append id p.commands (c ∷ []))
            (for_entity-⊑ id (offer-⊑ command_queue_capacity c p.commands)))))

dispatch_trace :
    (id : Text) (q : List Command) (p : Pipeline)
    → p.commands ≡ q
    → IsAddressed p
    → (trace id (command_loop q p) ⊑ trace id p) × IsAddressed (command_loop q p)
unfolding command_loop
dispatch_trace id [] p h a = (⊑_refl (trace id p), a)
dispatch_trace id (c ∷ rest) p h a =
    (hand_over_trace id c rest p h, hand_over-IsAddressed c rest p a)

empty_trace :
    (id : Text) (p : Pipeline) (cs : List Command)
    → p ≡ record { commands = []; workers = []; routed = [] }
    → trace id p ++ cs ≡ cs
unfolding for_entity lookup
empty_trace id p cs h = rw (h) refl

no_news : (id : Text) {xs ys : List Command} → xs ⊑ ys → xs ⊑ ys ++ for_entity id []
unfolding for_entity
no_news id {xs} {ys} h = subst (λ x. xs ⊑ x) (sym (append-nil ys)) h

offered-IsAddressed :
    (o : Option Command) (p : Pipeline) → IsAddressed p → IsAddressed (offered o p)
offered-IsAddressed none p a = a
offered-IsAddressed (some c) p a = a

module _ (decode_json : Text → Result Value) where
  -- the command that a turn brings in
  abbrev pub arrived : Transport → Turn → List Command
  arrived t (message topic raw now) = as_list (accept decode_json t topic raw now)
  arrived t _ = []

  unfoldable pub arrivals : List (Transport × Turn) → List Command
  arrivals [] = []
  arrivals ((t, a) ∷ ts) = arrived t a ++ arrivals ts

  unfoldable pub run_turns : List (Transport × Turn) → Pipeline → Pipeline
  unfolding turn
  run_turns [] p = p
  run_turns ((t, a) ∷ ts) p = run_turns ts (turn decode_json t a p)

  turn-trace :
      (id : Text) (t : Transport) (a : Turn) (p : Pipeline)
      → IsAddressed p
      → (trace id (turn decode_json t a p) ⊑ trace id p ++ for_entity id (arrived t a))
        × IsAddressed (turn decode_json t a p)
  unfolding turn on_message
  turn-trace id t (message topic raw now) p h = (
    offered_trace id (accept decode_json t topic raw now) p,
    offered-IsAddressed (accept decode_json t topic raw now) p h,
  )
  turn-trace id t dispatches p h =
      let d = dispatch_trace id p.commands p refl h in (no_news id d.0, d.1)
  turn-trace id t (works k) p h =
      let o = lookup k p.workers in
      (
        no_news id (
            subst (λ x. trace id (worker_loop k o p) ⊑ x) (worker_trace id k o p h refl)
              (⊑_refl (trace id (worker_loop k o p)))),
        worker-IsAddressed k o p h refl,
      )

  turns_trace :
      (id : Text) (ts : List (Transport × Turn)) (p : Pipeline)
      → IsAddressed p
      → trace id (run_turns ts p) ⊑ trace id p ++ for_entity id (arrivals ts)
  unfolding run_turns arrivals
  turns_trace id [] p h = no_news id (⊑_refl (trace id p))
  turns_trace id ((t, a) ∷ ts) p h =
      let s = turn-trace id t a p h in
      let p' = turn decode_json t a p in
      let new = for_entity id (arrived t a) in
      let later = for_entity id (arrivals ts) in
      ⊑_trans (turns_trace id ts p' s.1) (
        subst (λ x. trace id p' ++ later ⊑ x)
          (append_assoc (trace id p) new later
            ∙ ap (λ x. trace id p ++ x) (sym (for_entity-append id (arrived t a) (arrivals ts))))
          (⊑_append s.0 (⊑_refl later)))

  -- From empty queues and whatever the goroutines' schedule, the commands routed for an entity are
  -- commands that arrived for it, in the order of their arrival, each at most once.
  pub routed_in_order :
      (id : Text) (ts : List (Transport × Turn)) (p : Pipeline)
      → p ≡ record { commands = []; workers = []; routed = [] }
      → for_entity id (run_turns ts p).routed ⊑ for_entity id (arrivals ts)
  unfolding lookup
  routed_in_order id ts p h =
      let end = run_turns ts p in
      ⊑_trans
        (subst (λ x. x ⊑ trace id end) (append-nil (for_entity id end.routed))
          (⊑_append (⊑_refl (for_entity id end.routed))
            (⊑_empty (queue_of (lookup id end.workers) ++ for_entity id end.commands))))
        (subst (λ x. trace id end ⊑ x) (empty_trace id p (for_entity id (arrivals ts)) h)
          (turns_trace id ts p (λ k. rw (h) (unfold addressed in refl))))
