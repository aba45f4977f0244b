-- ===== src/Mqtt/Transport.antt =====
-- internal/transport/mqtt/mqtt.go: what the transport knows and publishes. `outbox` is what it has
-- handed to the broker; whether the broker takes it is only logged. A payload is the bytes or the
-- value given to json.Marshal. `sprint` is fmt.Sprint on values other than strings and booleans.
pub mod Convergence
pub mod Retained
use home_pc_agent.Common.{
  ℕ, Bool, true, false, Option, none, some, List, [], ◌∷◌, ◌++◌, Text, codes, ◌==◌, Dict, lookup,
  insert, delete, Value, null, boolean, text, object, get_field, has, if◌then◌else◌,
}
use home_pc_agent.Entity.{Entity, Availability, entity_or_zero, online, offline, unavailable, unset}
use home_pc_agent.Events.{
  Event, EventType, entity_added, entity_updated, entity_removed, state_changed,
  availability_changed,
}
use home_pc_agent.Mqtt.Topics.{
  DiscoveryOptions, state_topic, availability_topic, status_topic, discovery_topic,
  legacy_discovery_topic,
}
use home_pc_agent.Mqtt.Discovery.{discovery_payload}

pub data Payload : Type 0 where
  bytes : Text → Payload
  json : Dict Value → Payload

-- every message of the transport has QoS 1
pub record Message : Type 0 where
  pub topic : Text
  pub payload : Payload
  pub retained : Bool

-- `connected`: the client is not nil and IsConnected. `host` is none before Start, and else the
-- agent's id and name.
pub record Transport : Type 0 where
  pub topic_prefix : Text
  pub discovery_base : Text
  pub host : Option (Text × Text)
  pub known : Dict Entity
  pub connected : Bool
  pub outbox : List Message

-- New
unfoldable pub new_transport : Text → Text → Transport
new_transport prefix base = record {
  topic_prefix = prefix;
  discovery_base = elim base [ [] ↦ codes "homeassistant" | c ∷ s ↦ c ∷ s ];
  host = none;
  known = [];
  connected = false;
  outbox = [];
}

abbrev pub host_id : Option (Text × Text) → Text
host_id none = []
host_id (some (id, _)) = id

abbrev pub host_name : Option (Text × Text) → Text
host_name none = []
host_name (some (_, name)) = name

unfoldable pub discovery_options : Transport → DiscoveryOptions
discovery_options t = record {
  agent_id = host_id t.host;
  agent_name = host_name t.host;
  topic_prefix = t.topic_prefix;
  discovery_base = t.discovery_base;
}

unfoldable pub is_known : Text → Transport → Bool
unfolding lookup
is_known id t = has id t.known

unfoldable pub publish_raw : Text → Payload → Bool → Transport → Transport
publish_raw topic payload retained t =
    if t.connected
    then record t {
      outbox = t.outbox ++ (record { topic = topic; payload = payload; retained = retained }) ∷ [];
    }
    else t

abbrev pub availability_text : Availability → Text
availability_text online = codes "online"
availability_text offline = codes "offline"
availability_text unavailable = codes "unavailable"
availability_text unset = []

abbrev pub availability_json : Availability → Payload
availability_json a = json ((codes "availability", text (availability_text a)) ∷ [])

unfoldable pub publish_availability : Text → Availability → Transport → Transport
unfolding is_known publish_raw
publish_availability id a t =
    if is_known id t
    then publish_raw (availability_topic t.topic_prefix id) (availability_json a) true t
    else t

unfoldable pub publish_status : Availability → Transport → Transport
unfolding publish_raw
publish_status a t = publish_raw (status_topic t.topic_prefix) (availability_json a) true t

module _ (sprint : Value → Text) where
  unfoldable pub format_scalar : Value → Text
  format_scalar null = []
  format_scalar (text s) = s
  format_scalar (boolean true) = codes "true"
  format_scalar (boolean false) = codes "false"
  format_scalar v = sprint v

  abbrev state_or : Option Value → Value → Text
  state_or none v = format_scalar v
  state_or (some s) v = format_scalar s

  unfoldable pub state_plain_text : Value → Text
  unfolding format_scalar get_field
  state_plain_text (object fs) = state_or (get_field (codes "state") fs) (object fs)
  state_plain_text v = format_scalar v

  abbrev pub state_or_null : Option Value → Value
  state_or_null none = null
  state_or_null (some v) = v

  unfoldable pub publish_entity_state : Text → Option Value → Transport → Transport
  unfolding is_known publish_raw state_plain_text
  publish_entity_state id state t =
      if is_known id t
      then publish_raw (state_topic t.topic_prefix id)
          (bytes (state_plain_text (state_or_null state))) true t
      else t

module _ (lower_other : ℕ → ℕ) where
  abbrev pub config_topic : Entity → Transport → Text
  config_topic e t = discovery_topic lower_other e (discovery_options t)

  abbrev pub legacy_topic : Entity → Transport → Text
  legacy_topic e t = legacy_discovery_topic lower_other e (discovery_options t)

  unfoldable pub publish_discovery : Entity → Transport → Transport
  unfolding publish_raw discovery_topic legacy_discovery_topic discovery_payload discovery_options
  publish_discovery e t =
      publish_raw (config_topic e t) (json (discovery_payload lower_other e (discovery_options t)))
        true
        (if legacy_topic e t == config_topic e t
          then t
          else publish_raw (legacy_topic e t) (bytes []) true t)

  unfoldable pub handle_entity_added : Entity → Transport → Transport
  unfolding insert publish_discovery publish_availability
  handle_entity_added e t =
      publish_availability e.id online
        (publish_discovery e (record t { known = insert e.id e t.known }))

  unfoldable pub handle_entity_removed : Entity → Transport → Transport
  unfolding delete publish_raw discovery_topic discovery_options
  handle_entity_removed e t =
      publish_raw (config_topic e t) (bytes []) true (record t { known = delete e.id t.known })

  -- the loop over Entities() in eventLoop and publishDiscoverySnapshot
  unfoldable pub handle_listed : List Entity → Transport → Transport
  unfolding handle_entity_added
  handle_listed [] t = t
  handle_listed (e ∷ es) t = handle_listed es (handle_entity_added e t)

  unfoldable pub publish_discovery_snapshot : List Entity → Transport → Transport
  unfolding handle_listed
  publish_discovery_snapshot es t = elim t.host [ none ↦ t | some _ ↦ handle_listed es t ]

  abbrev pub availability_or_empty : Option Availability → Text → Transport → Transport
  availability_or_empty none id t = publish_availability id unset t
  availability_or_empty (some a) id t = publish_availability id a t

  module _ (sprint : Value → Text) where
    -- the `switch` of handleEvent
    unfoldable pub handle_kind :
        EventType
        → Text
        → Option Entity
        → Option Value
        → Option Availability
        → Transport
        → Transport
    unfolding handle_entity_added handle_entity_removed publish_entity_state publish_availability
    handle_kind entity_added id e v a t = handle_entity_added (entity_or_zero e) t
    handle_kind entity_updated id e v a t = handle_entity_added (entity_or_zero e) t
    handle_kind entity_removed id e v a t = handle_entity_removed (entity_or_zero e) t
    handle_kind state_changed id e v a t = publish_entity_state sprint id v t
    handle_kind availability_changed id e v a t = availability_or_empty a id t

    abbrev pub handle_event : Event → Transport → Transport
    handle_event ev t = handle_kind ev.event_type ev.entity_id ev.entity ev.state ev.availability t

    unfoldable pub handle_all : List Event → Transport → Transport
    unfolding handle_kind
    handle_all [] t = t
    handle_all (ev ∷ evs) t = handle_all evs (handle_event ev t)

    -- eventLoop: the registry's entities, listed after the subscription, then the events received
    unfoldable pub event_loop : List Entity → List Event → Transport → Transport
    unfolding handle_listed handle_all
    event_loop listed evs t = handle_all evs (handle_listed listed t)

  -- the OnConnect handler, without its subscription to the command topics
  unfoldable pub on_connect : List Entity → Transport → Transport
  unfolding publish_status publish_discovery_snapshot
  on_connect listed t =
      publish_discovery_snapshot listed (publish_status online (record t { connected = true }))

-- Stop, once the loops are done: the status is published only on a live connection.
unfoldable pub stop_transport : Transport → Transport
unfolding publish_status
stop_transport t =
    if t.connected then record (publish_status offline t) { connected = false } else t
