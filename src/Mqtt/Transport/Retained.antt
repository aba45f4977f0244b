-- ===== src/Mqtt/Transport/Retained.antt =====
-- What the broker retains after the transport has announced or withdrawn an entity.
use home_pc_agent.Common.{
  ℕ, true, false, Option, none, some, List, [], ◌∷◌, ◌++◌, Text, ◌==◌, ==_iff, ==_refl, Dict,
  insert, ◌≡◌, arith, if◌then◌else◌, or_else, lookup-insert, lookup-delete, delete, Bool-cases, inl,
  inr,
}
use home_pc_agent.Entity.{Entity, online}
use home_pc_agent.Mqtt.Topics.{availability_topic}
use home_pc_agent.Mqtt.Discovery.{discovery_payload}
use home_pc_agent.Mqtt.Transport.{
  Transport, Message, Payload, bytes, json, publish_raw, publish_availability, publish_discovery,
  handle_entity_added, handle_entity_removed, is_known, config_topic, legacy_topic,
  discovery_options, availability_json,
}

-- the last retained message on a topic, among those handed to the broker
unfoldable pub retained : Text → List Message → Option Payload
retained topic [] = none
retained topic (m ∷ ms) =
    or_else (retained topic ms)
      (if m.retained then (if m.topic == topic then some m.payload else none) else none)

retained-append :
    (k : Text) (ms : List Message) (m : Message)
    → retained k (ms ++ m ∷ [])
      ≡ or_else
          (if m.retained then (if m.topic == k then some m.payload else none) else none)
          (retained k ms)
unfolding retained
retained-append k [] m = ground arith
retained-append k (x ∷ ms) m = ground (arith, retained-append k ms m)

published :
    (k topic : Text) (p : Payload) (t : Transport)
    → t.connected ≡ true
    → ((publish_raw topic p true t).connected ≡ true)
      × (retained k (publish_raw topic p true t).outbox
          ≡ (if topic == k then some p else retained k t.outbox))
unfolding publish_raw
published k topic p t c =
    ground
      (arith, retained-append k t.outbox (record { topic = topic; payload = p; retained = true }))

-- one clearing message under a condition, then a message, as publishDiscovery does
two_published :
    (k c l : Text) (p : Payload) (t : Transport)
    → t.connected ≡ true
    → let t' = publish_raw c p true (if l == c then t else publish_raw l (bytes []) true t) in
      (t'.connected ≡ true)
      × (retained k t'.outbox
          ≡ (if c == k then some p else if l == k then some (bytes []) else retained k t.outbox))
two_published k c l p t h = elim (Bool-cases (l == c)) [
  | inl same ↦ rw (same) (ground (arith, published k c p t h, ==_iff l c, same))
  | inr other ↦ rw (other) (
      ground
        (arith, published k l (bytes []) t h, published k c p (publish_raw l (bytes []) true t)))
]

module _ (lower_other : ℕ → ℕ) where
  discovery_published :
      (k : Text) (e : Entity) (t : Transport)
      → t.connected ≡ true
      → let t' = publish_discovery lower_other e t in
        (t'.connected ≡ true)
        × (retained k t'.outbox ≡ (
            if config_topic lower_other e t == k
            then some (json (discovery_payload lower_other e (discovery_options t)))
            else if legacy_topic lower_other e t == k
            then some (bytes [])
            else retained k t.outbox))
  unfolding publish_discovery
  discovery_published k e t h =
      two_published k (config_topic lower_other e t) (legacy_topic lower_other e t)
        (json (discovery_payload lower_other e (discovery_options t))) t h

  discovery_keeps :
      (e : Entity) (t : Transport)
      → ((publish_discovery lower_other e t).known ≡ t.known)
        × ((publish_discovery lower_other e t).topic_prefix ≡ t.topic_prefix)
  unfolding publish_discovery publish_raw
  discovery_keeps e t = ground arith

  availability_published :
      (k id : Text) (t : Transport)
      → t.connected ≡ true
      → is_known id t ≡ true
      → retained k (publish_availability id online t).outbox ≡ (
          if availability_topic t.topic_prefix id == k
          then some (availability_json online)
          else retained k t.outbox)
  unfolding publish_availability
  availability_published k id t h known =
      rw (known)
        (published k (availability_topic t.topic_prefix id) (availability_json online) t h).1

  inserted_known :
      (e : Entity) (m : Dict Entity) (t : Transport)
      → t.known ≡ insert e.id e m
      → is_known e.id t ≡ true
  unfolding is_known
  inserted_known e m t h = ground (arith, h, lookup-insert e.id e.id e m, ==_refl e.id)

  -- On a live connection, an entity that is added or updated leaves three topics with new retained
  -- messages and every other one as it was: the availability topic with "online", the discovery
  -- topic with the entity's configuration, and the legacy discovery topic with an empty message
  -- (where the topics coincide, the first of the three counts).
  pub handle_entity_added_retained :
      (e : Entity) (t : Transport) (k : Text)
      → t.connected ≡ true
      → retained k (handle_entity_added lower_other e t).outbox ≡ (
          if availability_topic t.topic_prefix e.id == k
          then some (availability_json online)
          else if config_topic lower_other e t == k
          then some (json (discovery_payload lower_other e (discovery_options t)))
          else if legacy_topic lower_other e t == k
          then some (bytes [])
          else retained k t.outbox)
  unfolding handle_entity_added discovery_options
  handle_entity_added_retained e t k h =
      let t1 = record t { known = insert e.id e t.known } in
      let t2 = publish_discovery lower_other e t1 in
      let d = discovery_published k e t1 h in
      ground (
        arith,
        availability_published k e.id t2 d.0 (inserted_known e t.known t2 (discovery_keeps e t1).0),
        discovery_keeps e t1,
        d,
      )

  removed_unknown :
      (c : Text) (e : Entity) (t : Transport)
      → is_known e.id (publish_raw c (bytes []) true (record t { known = delete e.id t.known }))
        ≡ false
  unfolding is_known publish_raw
  removed_unknown c e t = ground (arith, lookup-delete e.id e.id t.known, ==_refl e.id)

  -- On a live connection, the entity that is removed is no longer known, its discovery topic is left
  -- with an empty retained message, and every other topic as it was.
  pub handle_entity_removed_retained :
      (e : Entity) (t : Transport) (k : Text)
      → t.connected ≡ true
      → (is_known e.id (handle_entity_removed lower_other e t) ≡ false)
        × (retained k (handle_entity_removed lower_other e t).outbox
            ≡ (if config_topic lower_other e t == k then some (bytes []) else retained k t.outbox))
  unfolding handle_entity_removed discovery_options
  handle_entity_removed_retained e t k h =
      let t1 = record t { known = delete e.id t.known } in
      let c = config_topic lower_other e t in
      (removed_unknown c e t, (published k c (bytes []) t1 h).1)
