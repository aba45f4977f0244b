-- ===== src/Core/Registry.antt =====
-- internal/core/registry.go: the entity registry. An operation returns the registry with the
-- events published on its bus, and an error or none. The event, which the code publishes after it has
-- given the mutex back, is one step with the change.
pub mod Laws
pub mod Observation
use home_pc_agent.Common.{
  Option, none, some, List, [], ◌∷◌, Text, Dict, lookup, insert, delete, Err, duplicate_entity,
  entity_not_found, Value, is_some, Bool,
}
use home_pc_agent.Entity.{Entity, Availability, validate}
use home_pc_agent.Events.{
  Bus, Event, EventType, entity_added, entity_updated, entity_removed, publish,
}

pub record Registry : Type 0 where
  pub entities : Dict Entity
  pub bus : Bus

-- an event about an entity, its time not yet set
unfoldable pub entity_event : EventType → Text → Entity → Event
entity_event type id e = record {
  event_type = type;
  entity_id = id;
  entity = some e;
  state = none;
  availability = none;
  time = 0;
}

-- the part of Register after the validation
unfoldable pub add_new : Option Entity → Entity → Registry → Registry × Option Err
unfolding insert publish entity_event
add_new (some _) e r = (r, some (duplicate_entity e.id))
add_new none e r = (
  record {
    entities = insert e.id e r.entities;
    bus = publish (entity_event entity_added e.id e) r.bus;
  },
  none,
)

unfoldable pub register : Entity → Registry → Registry × Option Err
unfolding add_new validate lookup
register e r = elim (validate e) [
  | some error ↦ (r, some error)
  | none ↦ add_new (lookup e.id r.entities) e r
]

unfoldable pub replace : Option Entity → Entity → Registry → Registry × Option Err
unfolding insert publish entity_event
replace none e r = (r, some (entity_not_found e.id))
replace (some _) e r = (
  record {
    entities = insert e.id e r.entities;
    bus = publish (entity_event entity_updated e.id e) r.bus;
  },
  none,
)

unfoldable pub update : Entity → Registry → Registry × Option Err
unfolding replace validate lookup
update e r = elim (validate e) [
  | some error ↦ (r, some error)
  | none ↦ replace (lookup e.id r.entities) e r
]

unfoldable pub drop_found : Option Entity → Text → Registry → Registry × Option Err
unfolding delete publish entity_event
drop_found none id r = (r, some (entity_not_found id))
drop_found (some e) id r = (
  record {
    entities = delete id r.entities;
    bus = publish (entity_event entity_removed id e) r.bus;
  },
  none,
)

unfoldable pub remove : Text → Registry → Registry × Option Err
unfolding drop_found lookup
remove id r = drop_found (lookup id r.entities) id r

unfoldable pub get : Text → Registry → Option Entity
unfolding lookup
get id r = lookup id r.entities

unfoldable pub has_entity : Text → Registry → Bool
unfolding lookup
has_entity id r = is_some (lookup id r.entities)

-- List: the values of the map, in its order.
unfoldable pub list : Dict Entity → List Entity
list [] = []
list ((_, e) ∷ m) = e ∷ list m
