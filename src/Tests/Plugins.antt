-- ===== src/Tests/Plugins.antt =====
-- Starting, stopping and reloading with one plugin and two transports.
use home_pc_agent.Common.{
  true, Option, none, some, [], ◌∷◌, ◌≡◌, refl, Text, codes, lookup, keys, distinct, contains,
  boolean, object, field, no_fields, Err, external, ok,
}
use home_pc_agent.Config.{Config}
use home_pc_agent.Core.Registry.{get}
use home_pc_agent.Core.Scope.{finish, call, registers_entity, subscribes_command, finished}
use home_pc_agent.Plugins.{Plugin, Factory, Manager, start}
use home_pc_agent.Plugins.Rollback.{IsIdle, IsAccounted, IsIdle-IsAccounted}
use home_pc_agent.Plugins.AllOrNothing.{AllOrNothing, start-AllOrNothing}
use home_pc_agent.Transports.{Transports, Answers}
use home_pc_agent.Reload.{Generation, Inputs, new_generation, start_generation, reload_from_disk}
use home_pc_agent.Reload.Generations.{
  IsFresh, IsLive, new_generation-IsFresh, start_generation-IsLive,
}
use home_pc_agent.Reload.Replacement.{Fate, reload_from_disk-Fate}
use home_pc_agent.Reload.{run}
use home_pc_agent.Reload.Lifetime.{run-IsIdle, last_of}
use home_pc_agent.Tests.Data.{lamp, accepting, empty_registry, empty_router}

-- a plugin that registers the lamp and takes its commands
abbrev lamps : Plugin
lamps = record {
  start =
      call (registers_entity lamp)
        (λ _. call (subscribes_command (codes "a.lamp") (some accepting)) (λ error. finish error));
  stop = none;
  wait = finished none;
}

abbrev lamps_factory : Factory
lamps_factory = record { id = codes "lamps"; build = some (λ section. ok lamps) }

abbrev idle_manager : Manager
idle_manager = record {
  factories = (codes "lamps", lamps_factory) ∷ [];
  sections = (codes "lamps", object (field (codes "enabled") (boolean true) no_fields)) ∷ [];
  registry = empty_registry;
  router = empty_router;
  running = [];
}

idle_manager-IsIdle : IsIdle idle_manager
unfolding lookup get
idle_manager-IsIdle = record { running = λ k. refl; entities = λ k. refl; handlers = λ k. refl }

one_factory : distinct (keys idle_manager.factories) ≡ true
unfolding distinct keys contains
one_factory = refl

start-AllOrNothing_example : AllOrNothing idle_manager (start idle_manager)
start-AllOrNothing_example = start-AllOrNothing idle_manager one_factory idle_manager-IsIdle

-- the manager after its start
abbrev lamps_running : Manager
lamps_running = (start idle_manager).0

lamps_running-IsAccounted : IsAccounted lamps_running
lamps_running-IsAccounted = accounted (start idle_manager) start_all_or_nothing_again
  where
    accounted : (r : Manager × Option Err) → AllOrNothing idle_manager r → IsAccounted r.0
    accounted (m, none) a = a.0
    accounted (m, some e) a = IsIdle-IsAccounted m a

    start_all_or_nothing_again : AllOrNothing idle_manager (start idle_manager)
    start_all_or_nothing_again = start-AllOrNothing idle_manager one_factory idle_manager-IsIdle

-- the second of two transports fails to start
abbrev two_transports : Transports
two_transports = record { ids = codes "mqtt" ∷ codes "http" ∷ []; started = [] }

abbrev mqtt_fails : Answers
mqtt_fails = record { starts = fails; stops = λ id. none }
  where
    fails : Text → Option Err
    fails [] = none
    fails (c ∷ id) = some (external (codes "no broker"))

abbrev all_well : Answers
all_well = record { starts = λ id. none; stops = λ id. none }

abbrev mqtt_started : Transports
mqtt_started = record two_transports { started = codes "mqtt" ∷ [] }

abbrev config : Config
config = record {
  agent_id = codes "pc";
  agent_name = codes "PC";
  data_dir = codes "/var/lib/agent";
  mqtt = record {
    enabled = true;
    broker = codes "tcp://broker:1883";
    client_id = codes "pc";
    username = [];
    password = [];
    topic_prefix = codes "home/pc";
    discovery_base = codes "homeassistant";
    connect_timeout = 5;
  };
  plugins = (codes "lamps", object (field (codes "enabled") (boolean true) no_fields)) ∷ [];
}

abbrev first_generation : Generation
first_generation = new_generation (lamps_factory ∷ []) 0 config (codes "mqtt" ∷ [])

first_generation-IsFresh : IsFresh first_generation
first_generation-IsFresh = new_generation-IsFresh (lamps_factory ∷ []) 0 config (codes "mqtt" ∷ [])

abbrev running_generation : Generation
running_generation = (start_generation all_well first_generation).0

running_generation-IsLive : IsLive running_generation
running_generation-IsLive =
    (start_generation-IsLive all_well first_generation first_generation-IsFresh).0

-- the candidate's transport fails to start
abbrev inputs : Inputs
inputs = record {
  loaded = ok config;
  validation = λ cfg. none;
  transports = λ cfg. codes "mqtt" ∷ [];
  now = 1;
  stop_previous = all_well;
  start_candidate = mqtt_fails;
  stop_candidate = all_well;
  restart_previous = all_well;
}

reload_from_disk-Fate_example :
    Fate
      (lamps_factory ∷ [])
      inputs
      config
      running_generation
      (reload_from_disk (lamps_factory ∷ []) inputs running_generation).outcome
      (reload_from_disk (lamps_factory ∷ []) inputs running_generation)
reload_from_disk-Fate_example =
    reload_from_disk-Fate (lamps_factory ∷ []) inputs config running_generation
      running_generation-IsLive refl refl

run-IsIdle_example :
    IsIdle
      (run
        (lamps_factory ∷ [])
        none
        []
        all_well
        (inputs ∷ inputs ∷ [])
        all_well
        []
        first_generation).0.plugins
run-IsIdle_example =
    run-IsIdle (lamps_factory ∷ []) none all_well (inputs ∷ inputs ∷ []) all_well first_generation
      first_generation-IsFresh

abbrev last : Generation
last = last_of (lamps_factory ∷ []) all_well (inputs ∷ []) all_well first_generation
