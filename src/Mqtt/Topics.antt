-- ===== src/Mqtt/Topics.antt =====
-- internal/transport/mqtt/discovery.go: topics and the identifiers in them. `lower_other` is
-- unicode.ToLower on the code points outside ASCII.
pub mod Layout
pub mod Identifiers
use home_pc_agent.Common.{
  ℕ, ◌+◌, Bool, true, false, not, ◌&&◌, ◌||◌, Option, none, some, List, [], ◌∷◌, ◌++◌, map, Text,
  codes, ◌==◌, trim, trim_left, trim_right, strip_prefix, has_char, is_empty, is_lower, is_upper,
  is_digit, nat_eq, ltb, if◌then◌else◌,
}
use home_pc_agent.Entity.{
  Entity, Kind, sensor, binary_sensor, switch, select, number_kind, button, text_kind, event,
  unknown,
}

pub record DiscoveryOptions : Type 0 where
  pub agent_id : Text
  pub agent_name : Text
  pub topic_prefix : Text
  pub discovery_base : Text

abbrev pub is_slash : ℕ → Bool
is_slash c = nat_eq c b'/'

unfoldable pub trim_slashes : Text → Text
unfolding trim
trim_slashes value = trim is_slash value

unfoldable pub state_topic : Text → Text → Text
unfolding trim_slashes
state_topic prefix id = trim_slashes prefix ++ (codes "/state/" ++ id)

unfoldable pub command_topic : Text → Text → Text
unfolding trim_slashes
command_topic prefix id = trim_slashes prefix ++ (codes "/command/" ++ id)

unfoldable pub availability_topic : Text → Text → Text
unfolding trim_slashes
availability_topic prefix id = trim_slashes prefix ++ (codes "/availability/" ++ id)

unfoldable pub status_topic : Text → Text
unfolding trim_slashes
status_topic prefix = trim_slashes prefix ++ codes "/status"

-- commandEntityID of mqtt.go
abbrev pub entity_part : Option Text → Option Text
entity_part none = none
entity_part (some id) = if is_empty id || has_char b'/' id then none else some id

unfoldable pub command_entity_id : Text → Text → Option Text
unfolding command_topic strip_prefix has_char
command_entity_id prefix topic = entity_part (strip_prefix (command_topic prefix []) topic)

unfoldable pub component_for_kind : Kind → Text
component_for_kind sensor = codes "sensor"
component_for_kind binary_sensor = codes "binary_sensor"
component_for_kind switch = codes "switch"
component_for_kind select = codes "select"
component_for_kind number_kind = codes "number"
component_for_kind button = codes "button"
component_for_kind text_kind = codes "text"
component_for_kind event = codes "event"
component_for_kind (unknown _) = codes "sensor"

unfoldable pub commandable : Kind → Bool
commandable switch = true
commandable select = true
commandable number_kind = true
commandable button = true
commandable text_kind = true
commandable _ = false

-- strings.ReplaceAll of one character by another
unfoldable pub replace_char : ℕ → ℕ → Text → Text
replace_char a b [] = []
replace_char a b (c ∷ s) = (if nat_eq c a then b else c) ∷ replace_char a b s

-- ReplaceAllString of the runs of unsafe characters by "_"; the flag says that a run has begun.
unfoldable pub replace_runs : (ℕ → Bool) → Bool → Text → Text
replace_runs safe in_run [] = []
replace_runs safe in_run (c ∷ s) =
    let kept = c ∷ replace_runs safe false s in
    let begun = b'_' ∷ replace_runs safe true s in
    let skipped = replace_runs safe true s in
    if safe c then kept else if in_run then skipped else begun

abbrev pub word_char : ℕ → Bool
word_char c = is_lower c || is_upper c || is_digit c || nat_eq c b'_'

abbrev pub node_char : ℕ → Bool
node_char c = word_char c || nat_eq c b'-'

abbrev pub is_underscore : ℕ → Bool
is_underscore c = nat_eq c b'_'

abbrev pub is_dash : ℕ → Bool
is_dash c = nat_eq c b'_' || nat_eq c b'-'

abbrev pub or_default : Text → Text
or_default value = if is_empty value then codes "home_pc_agent_entity" else value

abbrev pub base_or_default : Text → Text
base_or_default base = if is_empty base then codes "homeassistant" else base

module _ (lower_other : ℕ → ℕ) where
  unfoldable pub to_lower : Text → Text
  to_lower [] = []
  to_lower (c ∷ s) =
      (if ltb c 128 then (if is_upper c then c + 32 else c) else lower_other c) ∷ to_lower s

  -- the rewriting steps of objectID
  unfoldable pub object_slug : Text → Text → Text
  unfolding to_lower replace_char replace_runs
  object_slug agent_id entity_id =
      replace_runs word_char false (
        replace_char b'-' b'_' (replace_char b'.' b'_' (to_lower (agent_id ++ (b'_' ∷ entity_id)))))

  unfoldable pub object_id : Text → Text → Text
  unfolding object_slug trim
  object_id agent_id entity_id = or_default (trim is_underscore (object_slug agent_id entity_id))

  unfoldable pub discovery_node_id : Text → Text
  unfolding to_lower replace_char replace_runs trim trim_slashes
  discovery_node_id topic_prefix =
      trim is_dash (
        replace_runs node_char false
          (replace_char b'/' b'_' (to_lower (trim_slashes topic_prefix))))

  unfoldable pub legacy_discovery_topic : Entity → DiscoveryOptions → Text
  unfolding trim_slashes component_for_kind object_id
  legacy_discovery_topic e opts =
      trim_slashes (base_or_default opts.discovery_base)
      ++ (b'/'
          ∷ (component_for_kind e.kind
              ++ (b'/' ∷ (object_id opts.agent_id e.id ++ codes "/config"))))

  unfoldable pub discovery_topic : Entity → DiscoveryOptions → Text
  unfolding trim_slashes component_for_kind object_id discovery_node_id
  discovery_topic e opts =
      if is_empty (discovery_node_id opts.topic_prefix)
      then trim_slashes (base_or_default opts.discovery_base)
        ++ (b'/'
            ∷ (component_for_kind e.kind
                ++ (b'/' ∷ (object_id opts.agent_id e.id ++ codes "/config"))))
      else trim_slashes (base_or_default opts.discovery_base)
        ++ (b'/'
            ∷ (component_for_kind e.kind
                ++ (b'/'
                    ∷ (discovery_node_id opts.topic_prefix
                        ++ (b'/' ∷ (object_id opts.agent_id e.id ++ codes "/config"))))))
