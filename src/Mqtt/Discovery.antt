-- ===== src/Mqtt/Discovery.antt =====
-- internal/transport/mqtt/discovery.go, DiscoveryPayload: the discovery payload of an entity. The
-- Go map is a list of entries; `optional` is an assignment under an `if`.
use home_pc_agent.Common.{
  ℕ, Bool, true, false, not, ◌&&◌, Option, none, some, List, [], ◌∷◌, Text, codes, ◌==◌, Dict,
  lookup, Value, text, array, object, Items, no_items, item, no_fields, field, is_empty,
  if◌then◌else◌, ◌≡◌, refl, arith,
}
use home_pc_agent.Entity.{
  Entity, Kind, sensor, binary_sensor, switch, select, number_kind, button, text_kind, option_names,
}
use home_pc_agent.Mqtt.Topics.{
  DiscoveryOptions, object_id, availability_topic, state_topic, command_topic, commandable,
}

abbrev optional : Bool → Text → Value → Dict Value → Dict Value
optional true k v m = (k, v) ∷ m
optional false k v m = m

abbrev texts : List Text → Items
texts [] = no_items
texts (t ∷ ts) = item (text t) (texts ts)

-- the `switch` on the kind
kind_entries : Entity → Kind → Dict Value
kind_entries e binary_sensor =
    (codes "payload_on", text (codes "true")) ∷ (codes "payload_off", text (codes "false")) ∷ []
kind_entries e select =
    (codes "options", array (texts (option_names e.options)))
    ∷ (codes "command_template", text (codes "{\"value\":\"{{ value }}\"}"))
    ∷ []
kind_entries e button = (codes "payload_press", text (codes "{\"action\":\"press\"}")) ∷ []
kind_entries e switch =
    (codes "payload_on", text (codes "{\"value\":true}"))
    ∷ (codes "payload_off", text (codes "{\"value\":false}"))
    ∷ (codes "state_on", text (codes "true"))
    ∷ (codes "state_off", text (codes "false"))
    ∷ []
kind_entries e number_kind =
    (codes "command_template", text (codes "{\"value\":\"{{ value }}\"}")) ∷ []
kind_entries e text_kind =
    (codes "command_template", text (codes "{\"value\":\"{{ value }}\"}")) ∷ []
kind_entries e _ = []

abbrev is_button : Kind → Bool
is_button button = true
is_button _ = false

module _ (lower_other : ℕ → ℕ) where
  device : DiscoveryOptions → Value
  device opts = object (
      field (codes "identifiers") (array (item (text opts.agent_id) no_items)) (
        field (codes "name") (text opts.agent_name) (
          field (codes "manufacturer") (text (codes "home-pc-agent"))
            (field (codes "model") (text (codes "PC control agent")) no_fields))))

  optional_entries : Entity → Kind → DiscoveryOptions → Dict Value → Dict Value
  optional_entries e kind opts m = optional (not (is_empty e.icon)) (codes "icon") (text e.icon) (
      optional (not (is_empty e.device_class)) (codes "device_class") (text e.device_class) (
        optional (not (is_empty e.state_class)) (codes "state_class") (text e.state_class) (
          optional (not (is_empty e.unit)) (codes "unit_of_measurement") (text e.unit) (
            optional (not (is_empty e.category)) (codes "entity_category") (text e.category) (
              optional (not (is_button kind)) (codes "state_topic")
                (text (state_topic opts.topic_prefix e.id))
                (optional (commandable kind) (codes "command_topic")
                  (text (command_topic opts.topic_prefix e.id)) m))))))

  -- the payload of an entity of a kind
  payload_for : Entity → Kind → DiscoveryOptions → Dict Value
  unfolding kind_entries device optional_entries commandable
  payload_for e kind opts =
      (codes "name", text e.name)
      ∷ (codes "unique_id", text (object_id lower_other opts.agent_id e.id))
      ∷ (codes "object_id", text (object_id lower_other opts.agent_id e.id))
      ∷ (codes "availability_topic", text (availability_topic opts.topic_prefix e.id))
      ∷ (codes "availability_template", text (codes "{{ value_json.availability }}"))
      ∷ (codes "payload_available", text (codes "online"))
      ∷ (codes "payload_not_available", text (codes "offline"))
      ∷ (codes "device", device opts)
      ∷ optional_entries e kind opts (kind_entries e kind)

  unfoldable pub discovery_payload : Entity → DiscoveryOptions → Dict Value
  unfolding payload_for
  discovery_payload e opts = payload_for e e.kind opts

lookup-optional :
    (k j : Text) (b : Bool) (v : Value) (m : Dict Value)
    → lookup k (optional b j v m) ≡ (if j == k && b then some v else lookup k m)
unfolding lookup
lookup-optional k j true v m = ground arith
lookup-optional k j false v m = ground arith

lookup-cons :
    (k j : Text) (v : Value) (m : Dict Value)
    → lookup k ((j, v) ∷ m) ≡ (if j == k then some v else lookup k m)
unfolding lookup
lookup-cons k j v m = refl

lookup-empty : (k : Text) → lookup {V = Value} k [] ≡ none
unfolding lookup
lookup-empty k = refl

ruleset payload_laws = (lookup-cons, lookup-optional, lookup-empty)

abbrev pub command_key : Text
command_key = codes "command_topic"

abbrev pub state_key : Text
state_key = codes "state_topic"

abbrev pub options_key : Text
options_key = codes "options"

-- the topics and options that a kind calls for
abbrev pub command_entry : Kind → Text → Option Value
command_entry kind topic = if commandable kind then some (text topic) else none

abbrev pub state_entry : Kind → Text → Option Value
state_entry button topic = none
state_entry _ topic = some (text topic)

abbrev pub options_entry : Kind → List Text → Option Value
options_entry select names = some (array (texts names))
options_entry _ names = none

module _ (lower_other : ℕ → ℕ) (e : Entity) (opts : DiscoveryOptions) where
  payload_command :
      (kind : Kind)
      → lookup command_key (payload_for lower_other e kind opts)
        ≡ command_entry kind (command_topic opts.topic_prefix e.id)
  unfolding payload_for ◌==◌
  payload_command sensor = simp payload_laws
  payload_command _ = simp payload_laws

  payload_state :
      (kind : Kind)
      → lookup state_key (payload_for lower_other e kind opts)
        ≡ state_entry kind (state_topic opts.topic_prefix e.id)
  unfolding payload_for ◌==◌
  payload_state sensor = simp payload_laws
  payload_state _ = simp payload_laws

  payload_options :
      (kind : Kind)
      → lookup options_key (payload_for lower_other e kind opts)
        ≡ options_entry kind (option_names e.options)
  unfolding payload_for ◌==◌
  payload_options sensor = simp payload_laws
  payload_options _ = simp payload_laws

  -- Home Assistant is told a command topic exactly for the kinds that take commands, a state topic
  -- exactly for the kinds other than buttons, and the option names exactly for selects.
  pub discovery_payload_topics :
      (lookup command_key (discovery_payload lower_other e opts)
        ≡ command_entry e.kind (command_topic opts.topic_prefix e.id))
      × (lookup state_key (discovery_payload lower_other e opts)
          ≡ state_entry e.kind (state_topic opts.topic_prefix e.id))
      × (lookup options_key (discovery_payload lower_other e opts)
          ≡ options_entry e.kind (option_names e.options))
  unfolding discovery_payload
  discovery_payload_topics = (payload_command e.kind, payload_state e.kind, payload_options e.kind)
