-- ===== src/Tests/Data.antt =====
-- The test data: a few entities, a registry, a bus.
use home_pc_agent.Common.{ℕ, true, false, none, some, List, [], ◌∷◌, Text, codes, boolean, external}
use home_pc_agent.Entity.{Entity, Kind, Choice, switch, select}
use home_pc_agent.Events.{Event, Bus, state_changed}
use home_pc_agent.Core.Registry.{Registry}
use home_pc_agent.Core.Router.{Router, Command, Handler}
use home_pc_agent.Core.Scope.{World, Scope}

abbrev pub entity_of : Text → Text → Kind → List Choice → Entity
entity_of id name kind options = record {
  id = id;
  name = name;
  kind = kind;
  options = options;
  icon = [];
  device_class = [];
  state_class = [];
  unit = [];
  category = [];
}

abbrev pub lamp : Entity
lamp = entity_of (codes "a.lamp") (codes "Lamp") switch []

abbrev pub lamp_again : Entity
lamp_again = entity_of (codes "a.lamp") (codes "Desk") switch []

abbrev pub lamp_underscore : Entity
lamp_underscore = entity_of (codes "a_lamp") (codes "Lamp") switch []

abbrev pub mode_options : List Choice
mode_options =
    record { value = codes "1"; name = codes "Low" } ∷ record { value = codes "2"; name = [] } ∷ []

abbrev pub mode : Entity
mode = entity_of (codes "b.mode") (codes "Mode") select mode_options

abbrev pub empty_bus : Bus
empty_bus = record { subs = []; now = 7 }

abbrev pub empty_registry : Registry
empty_registry = record { entities = []; bus = empty_bus }

abbrev pub empty_router : Router
empty_router = record { handlers = [] }

abbrev pub accepting : Handler
accepting c = none

abbrev pub refusing : Handler
refusing c = some (external (codes "refused"))

abbrev pub command : Text → Command
command id = record {
  entity_id = id;
  payload = boolean true;
  raw = codes "true";
  transport = codes "mqtt";
  received_at = 5;
}

abbrev pub on_event : Event
on_event = record {
  event_type = state_changed;
  entity_id = codes "a.lamp";
  entity = none;
  state = some (boolean true);
  availability = none;
  time = 3;
}

abbrev pub off_event : Event
off_event = record {
  event_type = state_changed;
  entity_id = codes "a.lamp";
  entity = none;
  state = some (boolean false);
  availability = none;
  time = 4;
}

-- a scope that has registered the lamp and subscribed to its commands
abbrev pub lamp_scope : Scope
lamp_scope = record {
  plugin_id = codes "lamps";
  closed = false;
  entity_ids = codes "a.lamp" ∷ [];
  unsubs = (codes "a.lamp", record { entity_id = codes "a.lamp"; done = false } ∷ []) ∷ [];
  tasks = [];
  context_canceled = false;
}

abbrev pub lamp_world : World
lamp_world = record {
  registry = record { entities = (codes "a.lamp", lamp) ∷ []; bus = empty_bus };
  router = record { handlers = (codes "a.lamp", accepting) ∷ [] };
  scope = lamp_scope;
}

abbrev pub no_lower : ℕ → ℕ
no_lower c = c
