-- ===== src/Tests/Messages.antt =====
-- The MQTT transport with the lamp: what it publishes, and the commands it takes.
use home_pc_agent.Common.{
  true, false, ◌++◌, some, List, [], ◌∷◌, ◌≡◌, refl, Text, codes, ◌==◌, lookup, keys, distinct,
  if◌then◌else◌, Value, boolean, Result, ok, err, external, arith, strip_prefix, has_char,
  trim_left, trim_right,
}
use home_pc_agent.Core.Registry.{list}
use home_pc_agent.Core.Registry.Laws.{view, apply_all}
use home_pc_agent.Core.Registry.Observation.{events_of}
use home_pc_agent.Mqtt.Topics.{command_topic, command_entity_id}
use home_pc_agent.Mqtt.Transport.{Transport, new_transport, is_known, event_loop}
use home_pc_agent.Mqtt.Transport.Convergence.{known_converges}
use home_pc_agent.Mqtt.Commands.{
  Pipeline, Turn, message, dispatches, works, accept, decode_command_payload, unwrap_value,
  queue_of,
}
use home_pc_agent.Mqtt.Commands.Flow.{IsBounded}
use home_pc_agent.Mqtt.Commands.Sublists.{◌⊑◌, for_entity}
use home_pc_agent.Mqtt.Commands.Order.{run_turns, arrivals, routed_in_order}
use home_pc_agent.Mqtt.Commands.Progress.{idle_routes}
use home_pc_agent.Tests.Data.{lamp, command, empty_registry, no_lower}
use home_pc_agent.Tests.Registry.{setting_up, changing, empty-IsSound}

abbrev sprint : Value → Text
sprint v = codes "value"

-- a decoder that reads the two booleans
abbrev decode : Text → Result Value
decode raw =
    if raw == codes "true"
    then ok (boolean true)
    else if raw == codes "false"
    then ok (boolean false)
    else err (external (codes "syntax"))

-- connected, and knowing the lamp
abbrev transport : Transport
transport = record {
  topic_prefix = codes "home/pc";
  discovery_base = codes "homeassistant";
  host = some (codes "pc", codes "PC");
  known = (codes "a.lamp", lamp) ∷ [];
  connected = true;
  outbox = [];
}

abbrev fresh_transport : Transport
unfolding new_transport
fresh_transport = new_transport (codes "home/pc") []

no_entities : distinct (keys empty_registry.entities) ≡ true
unfolding distinct keys
no_entities = refl

known_converges_example :
    let listed = apply_all setting_up empty_registry in
    lookup
      (codes "a.lamp")
      (event_loop no_lower sprint
        (list listed.entities)
        (events_of setting_up empty_registry ++ events_of changing listed)
        fresh_transport).known
    ≡ view (apply_all changing listed) (codes "a.lamp")
unfolding fresh_transport
known_converges_example =
    known_converges no_lower sprint setting_up changing empty_registry fresh_transport
      (codes "a.lamp") empty-IsSound no_entities refl

abbrev no_commands : Pipeline
no_commands = record { commands = []; workers = []; routed = [] }

lamp_accepted :
    accept decode transport (codes "home/pc/command/a.lamp") (codes "true") 5
    ≡ some (command (codes "a.lamp"))
unfolding accept command_entity_id command_topic strip_prefix has_char is_known
    decode_command_payload unwrap_value lookup ◌==◌ trim_left trim_right
lamp_accepted = refl

no_commands-IsBounded : IsBounded no_commands
unfolding lookup
no_commands-IsBounded = record { main = omega arith; each = λ k q h. absurd (ground arith) }

abbrev turns : List (Transport × Turn)
turns =
    (transport, message (codes "home/pc/command/a.lamp") (codes "true") 5)
    ∷ (transport, dispatches)
    ∷ (transport, message (codes "home/pc/command/a.lamp") (codes "false") 6)
    ∷ (transport, works (codes "a.lamp"))
    ∷ []

routed_in_order_example :
    for_entity (codes "a.lamp") (run_turns decode turns no_commands).routed
    ⊑ for_entity (codes "a.lamp") (arrivals decode turns)
routed_in_order_example = routed_in_order decode (codes "a.lamp") turns no_commands refl

no_queue : queue_of (lookup (codes "a.lamp") no_commands.workers) ≡ []
unfolding lookup
no_queue = refl

idle_routes_example :
    (run_turns decode
      ((transport, message (codes "home/pc/command/a.lamp") (codes "true") 5)
        ∷ (transport, dispatches)
        ∷ (transport, works (codes "a.lamp"))
        ∷ [])
      no_commands).routed
    ≡ no_commands.routed ++ command (codes "a.lamp") ∷ []
idle_routes_example =
    idle_routes decode transport (codes "home/pc/command/a.lamp") (codes "true") 5
      (command (codes "a.lamp")) no_commands lamp_accepted refl no_queue
