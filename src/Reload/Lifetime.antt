-- ===== src/Reload/Lifetime.antt =====
-- The whole run of the agent, with any reloads.
use home_pc_agent.Common.{Option, none, some, List, [], ◌∷◌, Err, Result, ok, err}
use home_pc_agent.Config.{Config}
use home_pc_agent.Plugins.{Factory}
use home_pc_agent.Plugins.Rollback.{IsIdle}
use home_pc_agent.Transports.{Answers}
use home_pc_agent.Reload.{
  Generation, Inputs, Outcome, Reloaded, skipped, aborted, restored, replaced, start_generation,
  stop_generation, swap, if_valid, if_loaded, reload_from_disk, reload_all, after_start, run,
}
use home_pc_agent.Reload.Generations.{
  IsFresh, IsLive, AllStarted, start_generation-AllStarted, start_generation-IsLive,
  stop_generation-IsFresh,
}
use home_pc_agent.Reload.Replacement.{candidate, Fate, swap-Fate}

Fate-IsLive :
    (fs : List Factory) (i : Inputs) (cfg : Config) (g : Generation) (o : Outcome) (r : Reloaded)
    → Fate fs i cfg g o r
    → IsLive r.current
Fate-IsLive fs i cfg g skipped r f = absurd f
Fate-IsLive fs i cfg g aborted r f = f.1
Fate-IsLive fs i cfg g restored r f = f.1
Fate-IsLive fs i cfg g replaced r f = f.1

loaded-IsLive :
    (fs : List Factory) (i : Inputs) (cfg : Config) (g : Generation) (v : Option Err)
    → IsLive g
    → IsLive
        (if_valid v g (swap i (candidate fs i cfg) (stop_generation i.stop_previous g))).current
loaded-IsLive fs i cfg g (some e) l = l
loaded-IsLive fs i cfg g none l =
    let s = stop_generation-IsFresh i.stop_previous g l in
    let r = swap i (candidate fs i cfg) (stop_generation i.stop_previous g) in
    Fate-IsLive fs i cfg g r.outcome r
      (swap-Fate fs i cfg g (stop_generation i.stop_previous g).1 s.0 s.1)

reload-IsLive :
    (fs : List Factory) (i : Inputs) (g : Generation) (loaded : Result Config)
    → IsLive g
    → IsLive
        (if_loaded loaded g (λ cfg.
          if_valid
            (i.validation cfg)
            g
            (swap i (candidate fs i cfg) (stop_generation i.stop_previous g)))).current
reload-IsLive fs i g (err e) l = l
reload-IsLive fs i g (ok cfg) l = loaded-IsLive fs i cfg g (i.validation cfg) l

reload_from_disk-IsLive :
    (fs : List Factory) (i : Inputs) (g : Generation)
    → IsLive g
    → IsLive (reload_from_disk fs i g).current
unfolding reload_from_disk
reload_from_disk-IsLive fs i g l = reload-IsLive fs i g i.loaded l

reload_all-IsLive :
    (fs : List Factory) (is : List Inputs) (g : Generation) → IsLive g → IsLive (reload_all fs is g)
unfolding reload_all
reload_all-IsLive fs [] g l = l
reload_all-IsLive fs (i ∷ is) g l =
    reload_all-IsLive fs is (reload_from_disk fs i g).current (reload_from_disk-IsLive fs i g l)

after_start-IsIdle :
    (fs : List Factory) (a : Answers) (reloads : List Inputs) (stopping : Answers) (g : Generation)
    (r : Generation × Option Err)
    → AllStarted a g r
    → IsLive r.0
    → IsIdle (after_start fs reloads stopping r).0.plugins
after_start-IsIdle fs a reloads stopping g (g', some e) s l = s.0
after_start-IsIdle fs a reloads stopping g (g', none) s l =
    (stop_generation-IsFresh stopping (reload_all fs reloads g')
      (reload_all-IsLive fs reloads g' l)).0.idle

-- If no reload takes the mutex before the start or after Run's last step: Run on a fresh generation
-- ends with no plugin running and nothing of any plugin left in the generation that is then current,
-- whether the watch, the start or the stop fails, and however often the configuration was reloaded
-- between the start and the stop, with whatever outcome.
pub run-IsIdle :
    (fs : List Factory) (watching : Option Err) (starting : Answers) (reloads : List Inputs)
    (stopping : Answers) (g : Generation)
    → IsFresh g
    → IsIdle (run fs watching [] starting reloads stopping [] g).0.plugins
unfolding run reload_all
run-IsIdle fs (some e) starting reloads stopping g f = f.idle
run-IsIdle fs none starting reloads stopping g f =
    after_start-IsIdle fs starting reloads stopping g (start_generation starting g)
      (start_generation-AllStarted starting g f) (start_generation-IsLive starting g f).0

-- Run's generation, if no reload comes after its last step
abbrev pub last_of : List Factory → Answers → List Inputs → Answers → Generation → Generation
unfolding run
last_of fs starting reloads stopping g = (run fs none [] starting reloads stopping [] g).0
