-- ===== src/Mqtt/Transport/Convergence.antt =====
-- What the MQTT transport knows follows the registry.
use home_pc_agent.Common.{
  ℕ, Bool, true, Option, none, some, List, [], ◌∷◌, ◌++◌, Text, ==_iff, ==_refl, Dict, lookup,
  insert, delete, keys, lookup-insert, lookup-delete, distinct, contains-keys, Value, ◌≡◌, refl, ap,
  ◌∙◌, arith, or_else, distinct-keys-insert, distinct-keys-delete,
}
use home_pc_agent.Entity.{Entity, Availability, entity_or_zero, online, unset}
use home_pc_agent.Events.{
  Event, EventType, entity_added, entity_updated, entity_removed, state_changed,
  availability_changed,
}
use home_pc_agent.Core.Registry.{
  Registry, list, get, register, add_new, update, replace, remove, drop_found,
}
use home_pc_agent.Core.Registry.Laws.{
  view, Operation, registers, updates, removes, apply, apply_all, apply_all-IsSound, IsSound,
}
use home_pc_agent.Core.Registry.Observation.{
  learn, observe, observe_all, observe_all-cong, events_of, snapshot_catches_up,
}
use home_pc_agent.Mqtt.Transport.{
  Transport, Payload, bytes, publish_raw, publish_availability, publish_entity_state,
  publish_discovery, handle_entity_added, handle_entity_removed, handle_listed, handle_kind,
  handle_event, handle_all, event_loop, config_topic,
}

publish_raw-known :
    (topic : Text) (p : Payload) (b : Bool) (t : Transport)
    → (publish_raw topic p b t).known ≡ t.known
unfolding publish_raw
publish_raw-known topic p b t = ground arith

publish_availability-known :
    (id : Text) (a : Availability) (t : Transport) → (publish_availability id a t).known ≡ t.known
unfolding publish_availability publish_raw
publish_availability-known id a t = ground arith

publish_entity_state-known :
    (sprint : Value → Text) (id : Text) (v : Option Value) (t : Transport)
    → (publish_entity_state sprint id v t).known ≡ t.known
unfolding publish_entity_state publish_raw
publish_entity_state-known sprint id v t = ground arith

or_else_empty : (o : Option Entity) {x : Option Entity} → x ≡ none → or_else o x ≡ o
or_else_empty o h = ground arith

tail_none :
    (j : Text) (e : Entity) (m : Dict Entity)
    → distinct (keys ((j, e) ∷ m)) ≡ true
    → (lookup j m ≡ none) × (distinct (keys m) ≡ true)
unfolding distinct keys
tail_none j e m d = ground (arith, contains-keys j m)

apply-distinct :
    (op : Operation) (r : Registry)
    → distinct (keys r.entities) ≡ true
    → distinct (keys (apply op r).0.entities) ≡ true
unfolding register add_new update replace remove drop_found
apply-distinct (registers e) r d = ground (arith, distinct-keys-insert e.id e r.entities)
apply-distinct (updates e) r d = ground (arith, distinct-keys-insert e.id e r.entities)
apply-distinct (removes id) r d = ground (arith, distinct-keys-delete id r.entities)

apply_all-distinct :
    (ops : List Operation) (r : Registry)
    → distinct (keys r.entities) ≡ true
    → distinct (keys (apply_all ops r).entities) ≡ true
unfolding apply_all
apply_all-distinct [] r d = d
apply_all-distinct (op ∷ ops) r d = apply_all-distinct ops (apply op r).0 (apply-distinct op r d)

module _ (lower_other : ℕ → ℕ) where
  publish_discovery-known :
      (e : Entity) (t : Transport) → (publish_discovery lower_other e t).known ≡ t.known
  unfolding publish_discovery publish_raw
  publish_discovery-known e t = ground arith

  pub handle_entity_added-known :
      (e : Entity) (t : Transport)
      → (handle_entity_added lower_other e t).known ≡ insert e.id e t.known
  unfolding handle_entity_added
  handle_entity_added-known e t =
      publish_availability-known e.id online
        (publish_discovery lower_other e (record t { known = insert e.id e t.known }))
      ∙ publish_discovery-known e (record t { known = insert e.id e t.known })

  handle_entity_removed-known :
      (e : Entity) (t : Transport)
      → (handle_entity_removed lower_other e t).known ≡ delete e.id t.known
  unfolding handle_entity_removed
  handle_entity_removed-known e t =
      publish_raw-known (config_topic lower_other e t) (bytes []) true
        (record t { known = delete e.id t.known })

  handle_listed-known :
      (m : Dict Entity) (t : Transport) (k : Text)
      → ((j : Text) (e : Entity) → lookup j m ≡ some e → e.id ≡ j)
      → distinct (keys m) ≡ true
      → lookup k (handle_listed lower_other (list m) t).known
        ≡ or_else (lookup k m) (lookup k t.known)
  unfolding list handle_listed lookup
  handle_listed-known [] t k own d = refl
  handle_listed-known ((j, e) ∷ m) t k own d =
      let rest = tail_none j e m d in
      let next = handle_entity_added lower_other e t in
      ground (
        arith,
        handle_listed-known m next k (λ i x h. ground (arith, own i x, rest, ==_iff j i)) rest.1,
        rest,
        own j e,
        ==_refl j,
        ==_iff j k,
        handle_entity_added-known e t,
        lookup-insert j k e t.known,
      )

  module _ (sprint : Value → Text) where
    handle_kind-known :
        (type : EventType) (id : Text) (e : Option Entity) (v : Option Value)
        (a : Option Availability) (t : Transport) (k : Text)
        → lookup k (handle_kind lower_other sprint type id e v a t).known
          ≡ learn type id e (λ j. lookup j t.known) k
    unfolding handle_kind
    handle_kind-known entity_added id e v a t k =
        let x = entity_or_zero e in
        ap (lookup k) (handle_entity_added-known x t) ∙ lookup-insert x.id k x t.known
    handle_kind-known entity_updated id e v a t k =
        let x = entity_or_zero e in
        ap (lookup k) (handle_entity_added-known x t) ∙ lookup-insert x.id k x t.known
    handle_kind-known entity_removed id e v a t k =
        let x = entity_or_zero e in
        ap (lookup k) (handle_entity_removed-known x t) ∙ lookup-delete x.id k t.known
    handle_kind-known state_changed id e v a t k =
        ap (lookup k) (publish_entity_state-known sprint id v t)
    handle_kind-known availability_changed id e v none t k =
        ap (lookup k) (publish_availability-known id unset t)
    handle_kind-known availability_changed id e v (some a) t k =
        ap (lookup k) (publish_availability-known id a t)

    handle_all-known :
        (evs : List Event) (t : Transport) (k : Text)
        → lookup k (handle_all lower_other sprint evs t).known
          ≡ observe_all evs (λ j. lookup j t.known) k
    unfolding handle_all observe_all
    handle_all-known [] t k = refl
    handle_all-known (ev ∷ evs) t k =
        handle_all-known evs (handle_event lower_other sprint ev t) k
        ∙ observe_all-cong evs (λ j. lookup j (handle_event lower_other sprint ev t).known)
            (observe ev (λ j. lookup j t.known))
            (λ j.
              handle_kind-known ev.event_type ev.entity_id ev.entity ev.state ev.availability t j)
            k

    listed_known :
        (r : Registry) (t : Transport)
        → IsSound (view r)
        → distinct (keys r.entities) ≡ true
        → t.known ≡ []
        → (j : Text) → lookup j (handle_listed lower_other (list r.entities) t).known ≡ view r j
    unfolding get
    listed_known r t sound d fresh j =
        handle_listed-known r.entities t j (λ i e h. (sound i e h).1) d
        ∙ ap (λ (m : Dict Entity). or_else (lookup j r.entities) (lookup j m)) fresh
        ∙ or_else_empty (lookup j r.entities) (unfold lookup in refl)

    -- The registry is sound and holds each id once, and the transport knows nothing. If it
    -- subscribes, then lists the registry after the operations `before`, and then handles every event since its
    -- subscription, the last ones being those of the operations `after`, it knows exactly the
    -- registry's entities.
    pub known_converges :
        (before after : List Operation) (r : Registry) (t : Transport) (k : Text)
        → IsSound (view r)
        → distinct (keys r.entities) ≡ true
        → t.known ≡ []
        → let listed = apply_all before r in
          lookup k
            (event_loop lower_other sprint
              (list listed.entities)
              (events_of before r ++ events_of after listed)
              t).known
          ≡ view (apply_all after listed) k
    unfolding event_loop
    known_converges before after r t k sound d fresh =
        let listed = apply_all before r in
        let evs = events_of before r ++ events_of after listed in
        let t' = handle_listed lower_other (list listed.entities) t in
        handle_all-known evs t' k
        ∙ observe_all-cong evs (λ j. lookup j t'.known) (view listed)
            (λ j.
              listed_known listed t (apply_all-IsSound before r sound)
                (apply_all-distinct before r d) fresh j)
            k
        ∙ snapshot_catches_up before after r k sound
