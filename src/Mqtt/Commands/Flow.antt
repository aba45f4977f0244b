-- ===== src/Mqtt/Commands/Flow.antt =====
-- Which MQTT messages become commands, and how much can wait.
use home_pc_agent.Common.{
  ℕ, ◌≤◌, true, Option, none, some, List, [], ◌∷◌, Text, lookup, lookup-insert, Value, Result, ok,
  err, length, length-append, ◌≡◌, refl, arith, Option-cases, inl, inr, Bool-cases,
}
use home_pc_agent.Core.Router.{Command}
use home_pc_agent.Mqtt.Topics.{command_entity_id, command_topic}
use home_pc_agent.Mqtt.Topics.Layout.{command_entity_id_iff}
use home_pc_agent.Mqtt.Transport.{Transport, is_known}
use home_pc_agent.Mqtt.Commands.{
  Pipeline, Turn, message, dispatches, works, turn, on_message, command_loop, worker_loop,
  hand_over, offer, accept, command_for, command_of, decode_command_payload, queue_of,
  command_queue_capacity, entity_command_queue_capacity,
}

offer_bounded :
    (capacity : ℕ) (c : Command) (q : List Command)
    → length q ≤ capacity
    → length (offer capacity c q) ≤ capacity
unfolding offer
offer_bounded capacity c q h = ground (arith, length-append q (c ∷ []))

-- The main queue and every entity's queue stay within their capacities.
pub record IsBounded (p : Pipeline) : Type 0 where
  pub main : length p.commands ≤ command_queue_capacity
  pub each :
      (k : Text) (q : List Command)
      → lookup k p.workers ≡ some q
      → length q ≤ entity_command_queue_capacity

queue_bounded :
    (o : Option (List Command))
    → ((q : List Command) → o ≡ some q → length q ≤ entity_command_queue_capacity)
    → length (queue_of o) ≤ entity_command_queue_capacity
queue_bounded none h = omega arith
queue_bounded (some q) h = h q refl

module _ (decode_json : Text → Result Value) where
  command_of_fields :
      (id raw : Text) (now : ℕ) (v : Result Value) (c : Command)
      → command_of decode_json id raw now v ≡ some c
      → (c.entity_id ≡ id) × (c.raw ≡ raw) × (v ≡ ok c.payload)
  command_of_fields id raw now (err e) c h = absurd (ground arith)
  command_of_fields id raw now (ok v) c h = (ground arith, ground arith, ground arith)

  command_for_fields :
      (t : Transport) (o : Option Text) (raw : Text) (now : ℕ) (c : Command)
      → command_for decode_json t o raw now ≡ some c
      → (o ≡ some c.entity_id)
        × (is_known c.entity_id t ≡ true)
        × (c.raw ≡ raw)
        × (decode_command_payload decode_json raw ≡ ok c.payload)
  command_for_fields t none raw now c h = absurd (ground arith)
  command_for_fields t (some id) raw now c h = elim (Bool-cases (is_known id t)) [
    | inl known ↦
        let f =
          command_of_fields id raw now (decode_command_payload decode_json raw) c
            (ground (arith, h, known)) in
        ground (arith, f, known)
    | inr unknown ↦ absurd (ground (arith, h, unknown))
  ]

  -- A message becomes a command only if its topic is the command topic of an entity that the
  -- transport knows and its payload decodes; the command carries that entity's id, the decoded payload and the
  -- message's bytes.
  pub accept-known :
      (t : Transport) (topic raw : Text) (now : ℕ) (c : Command)
      → accept decode_json t topic raw now ≡ some c
      → (topic ≡ command_topic t.topic_prefix c.entity_id)
        × (is_known c.entity_id t ≡ true)
        × (c.raw ≡ raw)
        × (decode_command_payload decode_json raw ≡ ok c.payload)
  unfolding accept
  accept-known t topic raw now c h =
      let f = command_for_fields t (command_entity_id t.topic_prefix topic) raw now c h in
      (((command_entity_id_iff t.topic_prefix topic c.entity_id).0 f.0).0, f.1, f.2, f.3)

  message-IsBounded :
      (t : Transport) (topic raw : Text) (now : ℕ) (p : Pipeline)
      → IsBounded p
      → IsBounded (on_message decode_json t topic raw now p)
  unfolding on_message
  message-IsBounded t topic raw now p b = elim (Option-cases (accept decode_json t topic raw now)) [
    | inl h ↦ rw (h) b
    | inr (c, h) ↦
        rw (h) (record {
          main = offer_bounded command_queue_capacity c p.commands b.main;
          each = b.each;
        })
  ]

  command_loop-IsBounded :
      (q : List Command) (p : Pipeline)
      → p.commands ≡ q
      → IsBounded p
      → IsBounded (command_loop q p)
  unfolding command_loop hand_over
  command_loop-IsBounded [] p h b = b
  command_loop-IsBounded (c ∷ rest) p h b = record {
    main = ground (arith, b.main, h);
    each = λ k q e. ground (
      arith,
      b.each k q,
      lookup-insert c.entity_id k
          (offer entity_command_queue_capacity c (queue_of (lookup c.entity_id p.workers)))
          p.workers,
      offer_bounded entity_command_queue_capacity c (queue_of (lookup c.entity_id p.workers))
          (queue_bounded (lookup c.entity_id p.workers) (λ r g. b.each c.entity_id r g)),
    );
  }

  worker_loop-IsBounded :
      (id : Text) (o : Option (List Command)) (p : Pipeline)
      → lookup id p.workers ≡ o
      → IsBounded p
      → IsBounded (worker_loop id o p)
  unfolding worker_loop
  worker_loop-IsBounded id none p h b = b
  worker_loop-IsBounded id (some []) p h b = b
  worker_loop-IsBounded id (some (c ∷ rest)) p h b = record {
    main = b.main;
    each = λ k q e.
        ground (arith, b.each id (c ∷ rest) h, b.each k q, lookup-insert id k rest p.workers);
  }

  -- No turn takes a queue over its capacity.
  pub turn-IsBounded :
      (t : Transport) (a : Turn) (p : Pipeline) → IsBounded p → IsBounded (turn decode_json t a p)
  unfolding turn
  turn-IsBounded t (message topic raw now) p b = message-IsBounded t topic raw now p b
  turn-IsBounded t dispatches p b = command_loop-IsBounded p.commands p refl b
  turn-IsBounded t (works id) p b = worker_loop-IsBounded id (lookup id p.workers) p refl b
