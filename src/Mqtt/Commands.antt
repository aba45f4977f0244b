-- ===== src/Mqtt/Commands.antt =====
-- internal/transport/mqtt/mqtt.go: the path of a command from the broker to the router. A message
-- becomes a command in a bounded queue; `commandLoop` moves it to the bounded queue of its entity,
-- whose goroutine routes it. `decode_json` is the JSON decoder, which reads numbers as json.Number.
pub mod Flow
pub mod Sublists
pub mod Traces
pub mod Order
pub mod Progress
use home_pc_agent.Common.{
  ℕ, Bool, true, false, Option, none, some, List, [], ◌∷◌, ◌++◌, Text, codes, Dict, lookup, insert,
  Value, null, object, Fields, get_field, Err, external, Result, ok, err, length, ltb,
  if◌then◌else◌,
}
use home_pc_agent.Core.Router.{Command}
use home_pc_agent.Mqtt.Topics.{command_entity_id}
use home_pc_agent.Mqtt.Transport.{Transport, is_known}

abbrev pub command_queue_capacity : ℕ
command_queue_capacity = 128

abbrev pub entity_command_queue_capacity : ℕ
entity_command_queue_capacity = 16

abbrev action_or : Option Value → Value → Value
action_or none decoded = decoded
action_or (some action) decoded = action

abbrev value_or : Option Value → Fields → Value
value_or none fs = action_or (get_field (codes "action") fs) (object fs)
value_or (some value) fs = value

-- the part of decodeCommandPayload after the decoder
unfoldable pub unwrap_value : Value → Value
unfolding get_field
unwrap_value (object fs) = value_or (get_field (codes "value") fs) fs
unwrap_value v = v

-- select with a default: the send happens if the channel has room
unfoldable pub offer : ℕ → Command → List Command → List Command
offer capacity c queue = if ltb (length queue) capacity then queue ++ c ∷ [] else queue

-- The goroutines' shared state: the queue `commands`, the workers' queues, and the commands handed
-- to host.RouteCommand, in their order.
pub record Pipeline : Type 0 where
  pub commands : List Command
  pub workers : Dict (List Command)
  pub routed : List Command

-- the select of the callback
abbrev pub offered : Option Command → Pipeline → Pipeline
offered none p = p
offered (some c) p = record p { commands = offer command_queue_capacity c p.commands }

module _ (decode_json : Text → Result Value) where
  abbrev decoded : Result Value → Result Value
  decoded (err e) = err (external (codes "expected JSON command payload"))
  decoded (ok v) = ok (unwrap_value v)

  unfoldable pub decode_command_payload : Text → Result Value
  unfolding unwrap_value
  decode_command_payload [] = ok null
  decode_command_payload (c ∷ s) = decoded (decode_json (c ∷ s))

  abbrev pub command_of : Text → Text → ℕ → Result Value → Option Command
  command_of id raw now (err e) = none
  command_of id raw now (ok v) = some (record {
    entity_id = id;
    payload = v;
    raw = raw;
    transport = codes "mqtt";
    received_at = now;
  })

  abbrev pub command_for : Transport → Option Text → Text → ℕ → Option Command
  command_for t none raw now = none
  command_for t (some id) raw now =
      if is_known id t then command_of id raw now (decode_command_payload raw) else none

  -- the subscription's callback up to its select: the command, or none where it is rejected
  unfoldable pub accept : Transport → Text → Text → ℕ → Option Command
  unfolding command_entity_id is_known decode_command_payload
  accept t topic raw now = command_for t (command_entity_id t.topic_prefix topic) raw now

  unfoldable pub on_message : Transport → Text → Text → ℕ → Pipeline → Pipeline
  unfolding accept offer
  on_message t topic raw now p = offered (accept t topic raw now) p

abbrev pub queue_of : Option (List Command) → List Command
queue_of none = []
queue_of (some q) = q

unfoldable pub hand_over : Command → List Command → Pipeline → Pipeline
unfolding offer insert lookup
hand_over c rest p = record p {
  commands = rest;
  workers =
      insert c.entity_id
        (offer entity_command_queue_capacity c (queue_of (lookup c.entity_id p.workers))) p.workers;
}

-- one round of commandLoop; with an empty queue it waits
unfoldable pub command_loop : List Command → Pipeline → Pipeline
unfolding hand_over
command_loop [] p = p
command_loop (c ∷ rest) p = hand_over c rest p

unfoldable pub worker_loop : Text → Option (List Command) → Pipeline → Pipeline
unfolding insert
worker_loop id none p = p
worker_loop id (some []) p = p
worker_loop id (some (c ∷ rest)) p = record p {
  workers = insert id rest p.workers;
  routed = p.routed ++ c ∷ [];
}

-- One step of the callback, of commandLoop or of an entity's worker.
pub data Turn : Type 0 where
  message : Text → Text → ℕ → Turn
  dispatches : Turn
  works : Text → Turn

unfoldable pub turn : (Text → Result Value) → Transport → Turn → Pipeline → Pipeline
unfolding on_message command_loop worker_loop lookup
turn decode t (message topic raw now) p = on_message decode t topic raw now p
turn decode t dispatches p = command_loop p.commands p
turn decode t (works id) p = worker_loop id (lookup id p.workers) p
