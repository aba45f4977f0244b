-- ===== src/Reload.antt =====
-- internal/core/runtime.go: a generation is the plugins and the transports of one configuration;
-- the runtime starts one, and replaces it when the configuration file changes.
pub mod Generations
pub mod Replacement
pub mod Lifetime
use home_pc_agent.Common.{
  ℕ, Bool, true, false, Option, none, some, List, [], ◌∷◌, Text, Dict, Value, Err, Result, ok, err,
  join_errors, stop_transports_after, watch_config,
}
use home_pc_agent.Config.{Config}
use home_pc_agent.Events.{Bus}
use home_pc_agent.Core.Registry.{Registry}
use home_pc_agent.Core.Router.{Router}
use home_pc_agent.Plugins.{Manager, Factory, Running, factory_map, start, stop}
use home_pc_agent.Transports.{
  Transports, Answers, new_transports, start_transports, stop_transports,
}

pub record Generation : Type 0 where
  pub plugins : Manager
  pub transports : Transports

-- newGeneration, with a new bus, registry and router; `now` is the bus's time
unfoldable pub new_generation : List Factory → ℕ → Config → List Text → Generation
unfolding factory_map new_transports
new_generation factories now cfg transports = record {
  plugins = record {
    factories = factory_map factories [];
    sections = cfg.plugins;
    registry = record { entities = []; bus = record { subs = []; now = now } };
    router = record { handlers = [] };
    running = [];
  };
  transports = new_transports transports;
}

-- a failed start of the plugins stops the transports
abbrev pub both_errors : Err → Option Err → Err
both_errors e none = e
both_errors e (some stop_error) = stop_transports_after e stop_error

abbrev pub after_plugins : Answers → Transports → Manager × Option Err → Generation × Option Err
after_plugins a ts (ps, none) = (record { plugins = ps; transports = ts }, none)
after_plugins a ts (ps, some e) =
    let (ts', stop_error) = stop_transports a.stops ts in
    (record { plugins = ps; transports = ts' }, some (both_errors e stop_error))

abbrev pub after_transports : Answers → Manager → Transports × Option Err → Generation × Option Err
after_transports a ps (ts, some e) = (record { plugins = ps; transports = ts }, some e)
after_transports a ps (ts, none) = after_plugins a ts (start ps)

-- runtimeGeneration.Start
unfoldable pub start_generation : Answers → Generation → Generation × Option Err
unfolding start_transports start stop_transports
start_generation a g = after_transports a g.plugins (start_transports a g.transports)

-- runtimeGeneration.Stop
unfoldable pub stop_generation : Answers → Generation → Generation × Option Err
unfolding stop stop_transports
stop_generation a g =
    let (ps, plugin_error) = stop g.plugins in
    let (ts, transport_error) = stop_transports a.stops g.transports in
    (record { plugins = ps; transports = ts }, join_errors plugin_error transport_error)

-- the file's answer, the validator's, and what the transports answer during the stop of the
-- previous generation, the start and the stop of the candidate, and the restart of the previous one
pub record Inputs : Type 0 where
  pub loaded : Result Config
  pub validation : Config → Option Err
  pub transports : Config → List Text
  pub now : ℕ
  pub stop_previous : Answers
  pub start_candidate : Answers
  pub stop_candidate : Answers
  pub restart_previous : Answers

pub data Outcome : Type 0 where
  skipped aborted restored replaced : Outcome

-- The runtime's generation after the reload, what became of the reload, and the candidate if it was
-- given up after its start failed.
pub record Reloaded : Type 0 where
  pub current : Generation
  pub outcome : Outcome
  pub given_up : Option Generation

-- the candidate's start has returned
abbrev pub finish : Inputs → Generation → Generation × Option Err → Reloaded
finish i previous (candidate, none) = record {
  current = candidate;
  outcome = replaced;
  given_up = none;
}
finish i previous (candidate, some e) = record {
  current = (start_generation i.restart_previous previous).0;
  outcome = restored;
  given_up = some (stop_generation i.stop_candidate candidate).0;
}

-- the previous generation's stop has returned
abbrev pub swap : Inputs → Generation → Generation × Option Err → Reloaded
swap i candidate (previous, none) = finish i previous (start_generation i.start_candidate candidate)
swap i candidate (previous, some e) = record {
  current = (start_generation i.restart_previous previous).0;
  outcome = aborted;
  given_up = none;
}

abbrev pub skip : Generation → Reloaded
skip g = record { current = g; outcome = skipped; given_up = none }

abbrev pub if_valid : Option Err → Generation → Reloaded → Reloaded
if_valid (some e) g r = skip g
if_valid none g r = r

abbrev pub if_loaded : Result Config → Generation → (Config → Reloaded) → Reloaded
if_loaded (err e) g go = skip g
if_loaded (ok cfg) g go = go cfg

-- reloadFromDisk
unfoldable pub reload_from_disk : List Factory → Inputs → Generation → Reloaded
unfolding start_generation stop_generation new_generation
reload_from_disk factories i current = if_loaded i.loaded current (λ cfg.
    if_valid (i.validation cfg) current (
      swap i (new_generation factories i.now cfg (i.transports cfg))
        (stop_generation i.stop_previous current)))

-- reloads, one after the other
unfoldable pub reload_all : List Factory → List Inputs → Generation → Generation
unfolding reload_from_disk
reload_all factories [] g = g
reload_all factories (i ∷ is) g = reload_all factories is (reload_from_disk factories i g).current

-- Run gives the mutex back after its last step, and the watcher's Close does not wait for a callback.
abbrev pub returns : List Factory → List Inputs → Generation × Option Err → Generation × Option Err
returns factories late (g, error) = (reload_all factories late g, error)

abbrev pub after_start :
    List Factory → List Inputs → Answers → Generation × Option Err → Generation × Option Err
after_start factories reloads stopping (g, some e) = (g, some e)
after_start factories reloads stopping (g, none) =
    stop_generation stopping (reload_all factories reloads g)

-- Run, with the reloads that take the mutex before the start, between the start and the stop, and
-- after the stop or a failed start. `watching` is the error of config.Watch, without which there are
-- no reloads.
unfoldable pub run :
    List Factory
    → Option Err
    → List Inputs
    → Answers
    → List Inputs
    → Answers
    → List Inputs
    → Generation
    → Generation × Option Err
unfolding start_generation stop_generation reload_all
run factories (some e) early starting reloads stopping late g = (g, some (watch_config e))
run factories none early starting reloads stopping late g = returns factories late (
    after_start factories reloads stopping
      (start_generation starting (reload_all factories early g)))
