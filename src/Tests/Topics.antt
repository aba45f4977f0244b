-- ===== src/Tests/Topics.antt =====
-- Topics, identifiers and discovery payloads of the test entities.
use home_pc_agent.Common.{some}
use home_pc_agent.Mqtt.Topics.{command_entity_id}
use home_pc_agent.Mqtt.Topics.Layout.{command_entity_id-command_topic}
use home_pc_agent.Common.{true, ◌≡◌, refl, codes, all, trim_left, trim_right}
use home_pc_agent.Entity.{id_matches, id_head, id_tail}
use home_pc_agent.Mqtt.Topics.{DiscoveryOptions, command_topic, discovery_topic}
use home_pc_agent.Mqtt.Topics.Identifiers.{discovery_topic_collides}
use home_pc_agent.Tests.Data.{lamp, lamp_underscore, no_lower}

abbrev pub options : DiscoveryOptions
options = record {
  agent_id = codes "pc";
  agent_name = codes "PC";
  topic_prefix = codes "/home/pc/";
  discovery_base = codes "homeassistant";
}

lamp_command_topic : command_topic options.topic_prefix lamp.id ≡ codes "home/pc/command/a.lamp"
unfolding command_topic trim_left trim_right
lamp_command_topic = refl

lamp_id_matches : id_matches lamp.id ≡ true
unfolding id_matches id_head id_tail all
lamp_id_matches = refl

discovery_topic_collides_example :
    discovery_topic no_lower lamp options ≡ discovery_topic no_lower lamp_underscore options
discovery_topic_collides_example =
    discovery_topic_collides no_lower lamp lamp_underscore options (codes "a") (codes "lamp") refl
      refl refl

command_entity_id-command_topic_example :
    command_entity_id options.topic_prefix (command_topic options.topic_prefix lamp.id)
    ≡ some lamp.id
command_entity_id-command_topic_example =
    command_entity_id-command_topic options.topic_prefix lamp.id lamp_id_matches
