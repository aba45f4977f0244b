-- ===== src/Reload/Generations.antt =====
-- A generation's Start starts everything or leaves no plugin running.
use home_pc_agent.Common.{
  ℕ, true, Option, none, some, List, [], ◌∷◌, Text, Dict, lookup, insert, keys, distinct,
  distinct-keys-insert, Err, contains, is_some, has, ◌≡◌, refl, ap, ◌∙◌, arith,
}
use home_pc_agent.Config.{Config}
use home_pc_agent.Core.Registry.{get}
use home_pc_agent.Plugins.{Manager, Factory, factory_map, start}
use home_pc_agent.Plugins.Rollback.{IsIdle, IsAccounted, IsIdle-IsAccounted, stop-IsIdle}
use home_pc_agent.Plugins.Startup.{wanted}
use home_pc_agent.Plugins.AllOrNothing.{AllOrNothing, start-AllOrNothing}
use home_pc_agent.Plugins.Frame.{Keeps, start-Keeps, stop-Keeps}
use home_pc_agent.Transports.{Transports, Answers, start_transports}
use home_pc_agent.Transports.Starting.{Started, start_transports-Started, stop_transports-started}
use home_pc_agent.Transports.Within.{
  IsWithin, StaysWithin, start_transports-StaysWithin, stop_transports-StaysWithin,
}
use home_pc_agent.Reload.{
  Generation, new_generation, start_generation, stop_generation, after_plugins, after_transports,
}

-- A generation in which no plugin runs: each factory's id is there once, nothing of a plugin is
-- left, and only transports of the generation are started.
pub record IsFresh (g : Generation) : Type 0 where
  pub factories : distinct (keys g.plugins.factories) ≡ true
  pub idle : IsIdle g.plugins
  pub within : IsWithin g.transports

-- A generation in which plugins may run: each entity and handler belongs to a running plugin.
pub record IsLive (g : Generation) : Type 0 where
  pub factories : distinct (keys g.plugins.factories) ≡ true
  pub accounted : IsAccounted g.plugins
  pub within : IsWithin g.transports

-- the same configuration: the plugins' sections, the factories and the transports
abbrev pub IsSameSetup : Generation → Generation → Type 0
IsSameSetup g h = Keeps g.plugins h.plugins × (h.transports.ids ≡ g.transports.ids)

factory_map-distinct :
    (fs : List Factory) (m : Dict Factory)
    → distinct (keys m) ≡ true
    → distinct (keys (factory_map fs m)) ≡ true
unfolding factory_map
factory_map-distinct [] m d = d
factory_map-distinct (f ∷ fs) m d =
    factory_map-distinct fs (insert f.id f m) (distinct-keys-insert f.id f m d)

-- A new generation is fresh.
pub new_generation-IsFresh :
    (fs : List Factory) (now : ℕ) (cfg : Config) (ts : List Text)
    → IsFresh (new_generation fs now cfg ts)
unfolding new_generation contains
new_generation-IsFresh fs now cfg ts = record {
  factories = factory_map-distinct fs [] (unfold distinct keys in refl);
  idle = record {
    running = λ k. unfold lookup in refl;
    entities = λ k. unfold get lookup in refl;
    handlers = λ k. unfold lookup in refl;
  };
  within = λ k c. absurd (ground (arith, c));
}

-- What Start makes of a generation: all is started; or no plugin runs, nothing of any is left,
-- and a transport is started at most if its own Stop failed.
abbrev pub AllStarted : Answers → Generation → Generation × Option Err → Type 0
AllStarted a g (g', none) =
    IsAccounted g'.plugins
    × ((k : Text) → has k g'.plugins.running ≡ wanted g.plugins k)
    × ((k : Text) → contains g'.transports.started k ≡ contains g.transports.ids k)
AllStarted a g (g', some _) =
    IsIdle g'.plugins
    × ((k : Text) → contains g'.transports.started k ≡ true → is_some (a.stops k) ≡ true)

plugins_started :
    (a : Answers) (g : Generation) (ts : Transports) (r : Manager × Option Err)
    → ((k : Text) → contains ts.started k ≡ contains g.transports.ids k)
    → AllOrNothing g.plugins r
    → AllStarted a g (after_plugins a ts r)
plugins_started a g ts (ps, none) h p = (p.0, p.1, h)
plugins_started a g ts (ps, some e) h p =
    (p, λ k c. ground (arith, stop_transports-started a.stops ts k, c))

transports-Started :
    (a : Answers) (g : Generation) (r : Transports × Option Err)
    → IsFresh g
    → Started a g.transports.ids g.transports r
    → AllStarted a g (after_transports a g.plugins r)
transports-Started a g (ts, some e) f s = (f.idle, s)
transports-Started a g (ts, none) f s =
    plugins_started a g ts (start g.plugins) (λ k. ground (arith, s k, f.within k))
      (start-AllOrNothing g.plugins f.factories f.idle)

-- Starting a fresh generation starts all its transports and leaves running exactly the plugins that are enabled
-- and have a factory; or it returns an error, and then no plugin runs, nothing of any plugin is
-- left, and only transports whose own Stop failed are still started.
pub start_generation-AllStarted :
    (a : Answers) (g : Generation) → IsFresh g → AllStarted a g (start_generation a g)
unfolding start_generation
start_generation-AllStarted a g f =
    transports-Started a g (start_transports a g.transports) f
      (start_transports-Started a g.transports)

-- a plugin's start or stop followed by the transports' keeps the setup
after_plugins_kept :
    (a : Answers) (g : Generation) (ts : Transports) (r : Manager × Option Err)
    → Keeps g.plugins r.0
    → StaysWithin g.transports ts
    → IsSameSetup g (after_plugins a ts r).0 × IsWithin (after_plugins a ts r).0.transports
after_plugins_kept a g ts (ps, none) k w = ((k, w.0), w.1)
after_plugins_kept a g ts (ps, some e) k w =
    let s = stop_transports-StaysWithin a.stops ts w.1 in ((k, s.0 ∙ w.0), s.1)

after_transports_kept :
    (a : Answers) (g : Generation) (r : Transports × Option Err)
    → StaysWithin g.transports r.0
    → IsSameSetup g (after_transports a g.plugins r).0
      × IsWithin (after_transports a g.plugins r).0.transports
after_transports_kept a g (ts, some e) w = (((refl, refl), w.0), w.1)
after_transports_kept a g (ts, none) w =
    after_plugins_kept a g ts (start g.plugins) (start-Keeps g.plugins) w

start_kept :
    (a : Answers) (g : Generation)
    → IsWithin g.transports
    → IsSameSetup g (start_generation a g).0 × IsWithin (start_generation a g).0.transports
unfolding start_generation
start_kept a g w =
    after_transports_kept a g (start_transports a g.transports)
      (start_transports-StaysWithin a g.transports w)

started-IsAccounted :
    (a : Answers) (g : Generation) (r : Generation × Option Err)
    → AllStarted a g r
    → IsAccounted r.0.plugins
started-IsAccounted a g (g', none) s = s.0
started-IsAccounted a g (g', some e) s = IsIdle-IsAccounted g'.plugins s.0

-- Starting a fresh generation, whether it succeeds or not, leaves a live one with the same setup.
pub start_generation-IsLive :
    (a : Answers) (g : Generation)
    → IsFresh g
    → IsLive (start_generation a g).0 × IsSameSetup g (start_generation a g).0
start_generation-IsLive a g f =
    let k = start_kept a g f.within in
    (
      record {
        factories = ap (λ m. distinct (keys m)) k.0.0.1 ∙ f.factories;
        accounted =
            started-IsAccounted a g (start_generation a g) (start_generation-AllStarted a g f);
        within = k.1;
      },
      k.0,
    )

-- Stopping a live generation, whether it succeeds or not, leaves a fresh one with the same setup.
pub stop_generation-IsFresh :
    (a : Answers) (g : Generation)
    → IsLive g
    → IsFresh (stop_generation a g).0 × IsSameSetup g (stop_generation a g).0
unfolding stop_generation
stop_generation-IsFresh a g l =
    let k = stop-Keeps g.plugins in
    let w = stop_transports-StaysWithin a.stops g.transports l.within in
    (
      record {
        factories = ap (λ m. distinct (keys m)) k.1 ∙ l.factories;
        idle = stop-IsIdle g.plugins l.accounted;
        within = w.1;
      },
      (k, w.0),
    )
