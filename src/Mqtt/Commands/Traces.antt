-- ===== src/Mqtt/Commands/Traces.antt =====
-- What is on its way to an entity or has been routed to it, and how the steps change it.
use home_pc_agent.Common.{
  ℕ, Bool, true, false, ◌&&◌, Option, none, some, List, [], ◌∷◌, ◌++◌, Text, ◌==◌, ==_iff, ==_refl,
  Dict, lookup, insert, lookup-insert, length, ltb, ◌≡◌, refl, sym, ap, subst, arith, if◌then◌else◌,
  append_assoc, append-nil, Bool-cases, inl, inr,
}
use home_pc_agent.Core.Router.{Command}
use home_pc_agent.Mqtt.Commands.{
  Pipeline, worker_loop, hand_over, offer, queue_of, entity_command_queue_capacity,
}
use home_pc_agent.Mqtt.Commands.Sublists.{
  ◌⊑◌, ⊑_refl, ⊑_empty, ⊑_append, for_entity, for_entity-append, for_entity-own, for_entity-other,
}

-- everything that is still on its way to the entity, or has been routed to it, in order
abbrev pub trace : Text → Pipeline → List Command
trace id p = for_entity id p.routed ++ (queue_of (lookup id p.workers) ++ for_entity id p.commands)

unfoldable pub addressed : Text → List Command → Bool
addressed id [] = true
addressed id (c ∷ cs) = (c.entity_id == id) && addressed id cs

-- Every worker's queue holds commands for its own entity alone.
abbrev pub IsAddressed : Pipeline → Type 0
IsAddressed p = (k : Text) → addressed k (queue_of (lookup k p.workers)) ≡ true

pub offer-⊑ : (capacity : ℕ) (c : Command) (q : List Command) → offer capacity c q ⊑ q ++ c ∷ []
unfolding offer
offer-⊑ capacity c q = elim (Bool-cases (ltb (length q) capacity)) [
  | inl room ↦ rw (room) (⊑_refl (q ++ c ∷ []))
  | inr full ↦
      rw (full)
        (subst (λ x. x ⊑ q ++ c ∷ []) (append-nil q) (⊑_append (⊑_refl q) (⊑_empty (c ∷ []))))
]

addressed-append :
    (id : Text) (q : List Command) (c : Command)
    → addressed id q ≡ true
    → (c.entity_id == id) ≡ true
    → addressed id (q ++ c ∷ []) ≡ true
unfolding addressed
addressed-append id [] c h e = ground arith
addressed-append id (x ∷ q) c h e = ground (arith, addressed-append id q c)

addressed-offer :
    (capacity : ℕ) (c : Command) (q : List Command)
    → addressed c.entity_id q ≡ true
    → addressed c.entity_id (offer capacity c q) ≡ true
unfolding offer
addressed-offer capacity c q h =
    ground (arith, addressed-append c.entity_id q c h (==_refl c.entity_id))

queue_of-insert :
    (k id : Text) (q : List Command) (m : Dict (List Command))
    → queue_of (lookup id (insert k q m)) ≡ (if k == id then q else queue_of (lookup id m))
queue_of-insert k id q m = ground (arith, lookup-insert k id q m)

-- a command taken from the main queue
hand_over_own :
    (c : Command) (rest : List Command) (p : Pipeline)
    → p.commands ≡ c ∷ rest
    → trace c.entity_id (hand_over c rest p) ⊑ trace c.entity_id p
unfolding hand_over
hand_over_own c rest p h =
    let id = c.entity_id in
    let q = queue_of (lookup id p.workers) in
    let q' = offer entity_command_queue_capacity c q in
    rw (queue_of-insert id id q' p.workers, ==_refl id, h, for_entity-own c rest)
      (⊑_append (⊑_refl (for_entity id p.routed)) (
        subst (λ x. q' ++ for_entity id rest ⊑ x) (append_assoc q (c ∷ []) (for_entity id rest))
          (⊑_append (offer-⊑ entity_command_queue_capacity c q) (⊑_refl (for_entity id rest)))))

hand_over_other :
    (id : Text) (c : Command) (rest : List Command) (p : Pipeline)
    → p.commands ≡ c ∷ rest
    → (c.entity_id == id) ≡ false
    → trace id (hand_over c rest p) ⊑ trace id p
unfolding hand_over
hand_over_other id c rest p h e =
    let q' = offer entity_command_queue_capacity c (queue_of (lookup c.entity_id p.workers)) in
    rw (queue_of-insert c.entity_id id q' p.workers, e, h, for_entity-other id c rest e)
      (⊑_refl (for_entity id p.routed ++ (queue_of (lookup id p.workers) ++ for_entity id rest)))

pub hand_over_trace :
    (id : Text) (c : Command) (rest : List Command) (p : Pipeline)
    → p.commands ≡ c ∷ rest
    → trace id (hand_over c rest p) ⊑ trace id p
hand_over_trace id c rest p h = elim (Bool-cases (c.entity_id == id)) [
  | inl e ↦
      subst (λ k. trace k (hand_over c rest p) ⊑ trace k p) ((==_iff c.entity_id id).0 e)
        (hand_over_own c rest p h)
  | inr e ↦ hand_over_other id c rest p h e
]

pub hand_over-IsAddressed :
    (c : Command) (rest : List Command) (p : Pipeline)
    → IsAddressed p
    → IsAddressed (hand_over c rest p)
unfolding hand_over
hand_over-IsAddressed c rest p h k =
    let q = queue_of (lookup c.entity_id p.workers) in
    ground (
      arith,
      queue_of-insert c.entity_id k (offer entity_command_queue_capacity c q) p.workers,
      addressed-offer entity_command_queue_capacity c q (h c.entity_id),
      h k,
      ==_iff c.entity_id k,
    )

addressed-first :
    (k : Text) (o : Option (List Command)) (c : Command) (rest : List Command)
    → o ≡ some (c ∷ rest)
    → addressed k (queue_of o) ≡ true
    → (c.entity_id ≡ k) × (addressed k rest ≡ true)
unfolding addressed
addressed-first k o c rest h a = ground (arith, ==_iff c.entity_id k)

worker_own :
    (c : Command) (rest : List Command) (p : Pipeline)
    → lookup c.entity_id p.workers ≡ some (c ∷ rest)
    → trace c.entity_id (worker_loop c.entity_id (some (c ∷ rest)) p) ≡ trace c.entity_id p
unfolding worker_loop
worker_own c rest p h =
    let id = c.entity_id in
    let a = for_entity id p.routed in
    let b = rest ++ for_entity id p.commands in
    rw
      (
        queue_of-insert id id rest p.workers,
        ==_refl id,
        h,
        for_entity-append id p.routed (c ∷ []),
        for_entity-own c [],
      )
      (unfold for_entity in append_assoc a (c ∷ []) b)

worker_other :
    (id : Text) (c : Command) (rest : List Command) (p : Pipeline)
    → (c.entity_id == id) ≡ false
    → trace id (worker_loop c.entity_id (some (c ∷ rest)) p) ≡ trace id p
unfolding worker_loop
worker_other id c rest p e =
    let b = queue_of (lookup id p.workers) ++ for_entity id p.commands in
    rw
      (
        queue_of-insert c.entity_id id rest p.workers,
        e,
        for_entity-append id p.routed (c ∷ []),
        for_entity-other id c [] e,
      )
      (unfold for_entity in ap (λ x. x ++ b) (append-nil (for_entity id p.routed)))

pub worker_trace :
    (id k : Text) (o : Option (List Command)) (p : Pipeline)
    → IsAddressed p
    → lookup k p.workers ≡ o
    → trace id (worker_loop k o p) ≡ trace id p
worker_trace id k none p a h = unfold worker_loop in refl
worker_trace id k (some []) p a h = unfold worker_loop in refl
worker_trace id k (some (c ∷ rest)) p a h =
    let own = (addressed-first k (lookup k p.workers) c rest h (a k)).0 in
    subst (λ j. trace id (worker_loop j (some (c ∷ rest)) p) ≡ trace id p) own
      (elim (Bool-cases (c.entity_id == id)) [
        | inl e ↦
            subst (λ j. trace j (worker_loop c.entity_id (some (c ∷ rest)) p) ≡ trace j p)
              ((==_iff c.entity_id id).0 e)
              (worker_own c rest p (subst (λ j. lookup j p.workers ≡ some (c ∷ rest)) (sym own) h))
        | inr e ↦ worker_other id c rest p e
      ])

pub worker-IsAddressed :
    (k : Text) (o : Option (List Command)) (p : Pipeline)
    → IsAddressed p
    → lookup k p.workers ≡ o
    → IsAddressed (worker_loop k o p)
unfolding worker_loop
worker-IsAddressed k none p a h = a
worker-IsAddressed k (some []) p a h = a
worker-IsAddressed k (some (c ∷ rest)) p a h = λ j. ground (
  arith,
  queue_of-insert k j rest p.workers,
  addressed-first k (lookup k p.workers) c rest h (a k),
  a j,
  ==_iff k j,
)
