-- ===== src/Mqtt/Commands/Progress.antt =====
-- A command that finds empty queues is routed.
use home_pc_agent.Common.{
  ℕ, Option, some, [], ◌∷◌, ◌++◌, Text, ==_refl, lookup, lookup-insert, Value, Result, ◌≡◌, refl,
  arith,
}
use home_pc_agent.Core.Router.{Command}
use home_pc_agent.Mqtt.Transport.{Transport}
use home_pc_agent.Mqtt.Commands.{
  Pipeline, message, dispatches, works, turn, on_message, command_loop, worker_loop, hand_over,
  offer, offered, accept, queue_of, entity_command_queue_capacity,
}
use home_pc_agent.Mqtt.Commands.Order.{run_turns}

-- the worker's queue after a hand-over to an idle worker
handed_to_idle :
    (c : Command) (p : Pipeline)
    → queue_of (lookup c.entity_id p.workers) ≡ []
    → lookup c.entity_id (hand_over c [] p).workers ≡ some (c ∷ [])
unfolding hand_over offer
handed_to_idle c p h = ground (
  arith,
  h,
  lookup-insert c.entity_id c.entity_id
      (offer entity_command_queue_capacity c (queue_of (lookup c.entity_id p.workers))) p.workers,
  ==_refl c.entity_id,
)

idle_turns :
    (c : Command) (p : Pipeline)
    → p.commands ≡ []
    → queue_of (lookup c.entity_id p.workers) ≡ []
    → let p1 = offered (some c) p in
      let p2 = command_loop p1.commands p1 in
      (worker_loop c.entity_id (lookup c.entity_id p2.workers) p2).routed ≡ p.routed ++ c ∷ []
unfolding command_loop worker_loop offer
idle_turns c p h q =
    rw (h, handed_to_idle c (record p { commands = c ∷ [] }) q) (unfold hand_over in refl)

idle_offered :
    (o : Option Command) (c : Command) (p : Pipeline)
    → o ≡ some c
    → p.commands ≡ []
    → queue_of (lookup c.entity_id p.workers) ≡ []
    → let p1 = offered o p in
      let p2 = command_loop p1.commands p1 in
      (worker_loop c.entity_id (lookup c.entity_id p2.workers) p2).routed ≡ p.routed ++ c ∷ []
idle_offered o c p h e q = rw (h) (idle_turns c p e q)

-- If the main queue and the entity's queue are empty, an accepted message is not dropped: once
-- commandLoop and the entity's worker have taken one step each, its command has been routed.
pub idle_routes :
    (decode_json : Text → Result Value) (t : Transport) (topic raw : Text) (now : ℕ) (c : Command)
    (p : Pipeline)
    → accept decode_json t topic raw now ≡ some c
    → p.commands ≡ []
    → queue_of (lookup c.entity_id p.workers) ≡ []
    → (run_turns decode_json
        ((t, message topic raw now) ∷ (t, dispatches) ∷ (t, works c.entity_id) ∷ [])
        p).routed
      ≡ p.routed ++ c ∷ []
unfolding run_turns turn on_message
idle_routes decode_json t topic raw now c p h e q =
    idle_offered (accept decode_json t topic raw now) c p h e q
