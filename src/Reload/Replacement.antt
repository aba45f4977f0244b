-- ===== src/Reload/Replacement.antt =====
-- What a reload of the configuration leaves running.
use home_pc_agent.Common.{Option, none, some, List, Err, ok, ◌≡◌, ◌↔◌, refl, ◌∙◌, arith}
use home_pc_agent.Config.{Config}
use home_pc_agent.Plugins.{Factory}
use home_pc_agent.Transports.{Answers}
use home_pc_agent.Reload.{
  Generation, Inputs, Outcome, Reloaded, skipped, replaced, new_generation, start_generation,
  stop_generation, finish, swap, if_valid, reload_from_disk,
}
use home_pc_agent.Reload.Generations.{
  IsFresh, IsLive, IsSameSetup, AllStarted, new_generation-IsFresh, start_generation-AllStarted,
  start_generation-IsLive, stop_generation-IsFresh,
}

abbrev pub candidate : List Factory → Inputs → Config → Generation
candidate fs i cfg = new_generation fs i.now cfg (i.transports cfg)

abbrev pub IsGivenUp : Option Generation → Type 0
IsGivenUp none = Unit
IsGivenUp (some c) = IsFresh c

-- the previous generation, as its stop in the reload has left it
abbrev pub stopped_previous : Inputs → Generation → Generation
stopped_previous i g = (stop_generation i.stop_previous g).0

-- what a start of that generation makes of it
abbrev pub IsRestarted : Inputs → Generation → Generation → Type 0
IsRestarted i g current =
    AllStarted i.restart_previous (stopped_previous i g)
      (current, (start_generation i.restart_previous (stopped_previous i g)).1)

-- What a reload with a loaded and valid configuration comes to: the candidate of that configuration
-- runs, fully started; or the previous setup is kept, started again from a fresh state, and a
-- candidate whose start failed has been stopped.
abbrev pub Fate : List Factory → Inputs → Config → Generation → Outcome → Reloaded → Type 0
Fate fs i cfg g replaced r =
    AllStarted i.start_candidate (candidate fs i cfg) (r.current, none) × IsLive r.current
Fate fs i cfg g skipped r = ⊥
Fate fs i cfg g _ r =
    IsSameSetup g r.current × IsLive r.current × IsRestarted i g r.current × IsGivenUp r.given_up

SameSetup-trans : (g h k : Generation) → IsSameSetup g h → IsSameSetup h k → IsSameSetup g k
SameSetup-trans g h k p q = ((q.0.0 ∙ p.0.0, q.0.1 ∙ p.0.1), q.1 ∙ p.1)

-- the previous generation, restarted
kept :
    (a : Answers) (g previous : Generation)
    → IsFresh previous
    → IsSameSetup g previous
    → IsSameSetup g (start_generation a previous).0 × IsLive (start_generation a previous).0
kept a g previous f s =
    let l = start_generation-IsLive a previous f in
    (SameSetup-trans g previous (start_generation a previous).0 s l.1, l.0)

finish-Fate :
    (fs : List Factory) (i : Inputs) (cfg : Config) (g : Generation) (r : Generation × Option Err)
    → AllStarted i.start_candidate (candidate fs i cfg) r
    → IsLive r.0
    → IsFresh (stopped_previous i g)
    → IsSameSetup g (stopped_previous i g)
    → Fate fs i cfg g
        (finish i (stopped_previous i g) r).outcome
        (finish i (stopped_previous i g) r)
finish-Fate fs i cfg g (c, none) a l f s = (a, l)
finish-Fate fs i cfg g (c, some e) a l f s =
    let k = kept i.restart_previous g (stopped_previous i g) f s in
    (
      k.0,
      k.1,
      start_generation-AllStarted i.restart_previous (stopped_previous i g) f,
      (stop_generation-IsFresh i.stop_candidate c l).0,
    )

pub swap-Fate :
    (fs : List Factory) (i : Inputs) (cfg : Config) (g : Generation) (error : Option Err)
    → IsFresh (stopped_previous i g)
    → IsSameSetup g (stopped_previous i g)
    → Fate fs i cfg g
        (swap i (candidate fs i cfg) (stopped_previous i g, error)).outcome
        (swap i (candidate fs i cfg) (stopped_previous i g, error))
swap-Fate fs i cfg g none f s =
    let c = candidate fs i cfg in
    let fresh = new_generation-IsFresh fs i.now cfg (i.transports cfg) in
    finish-Fate fs i cfg g (start_generation i.start_candidate c)
      (start_generation-AllStarted i.start_candidate c fresh)
      (start_generation-IsLive i.start_candidate c fresh).0 f s
swap-Fate fs i cfg g (some e) f s =
    let k = kept i.restart_previous g (stopped_previous i g) f s in
    (k.0, k.1, start_generation-AllStarted i.restart_previous (stopped_previous i g) f, tt)

-- A reload of a live generation with a configuration that loads and is valid either replaces it by
-- the new configuration's generation, with all its transports started and exactly its wanted
-- plugins running; or keeps the old configuration, factories and transports in a live generation.
-- That one has been started again: if its start reports no error, all its transports are started and
-- exactly its wanted plugins run, and if it does, no plugin runs. A candidate that failed to start
-- then has no plugin running and nothing of one left.
pub reload_from_disk-Fate :
    (fs : List Factory) (i : Inputs) (cfg : Config) (g : Generation)
    → IsLive g
    → i.loaded ≡ ok cfg
    → i.validation cfg ≡ none
    → Fate fs i cfg g (reload_from_disk fs i g).outcome (reload_from_disk fs i g)
unfolding reload_from_disk
reload_from_disk-Fate fs i cfg g l load valid =
    let s = stop_generation-IsFresh i.stop_previous g l in
    rw (load, valid) (swap-Fate fs i cfg g (stop_generation i.stop_previous g).1 s.0 s.1)

finish_replaced :
    (i : Inputs) (previous : Generation) (r : Generation × Option Err)
    → ((finish i previous r).outcome ≡ replaced) ↔ (r.1 ≡ none)
finish_replaced i previous (c, none) = (λ _. refl, λ _. refl)
finish_replaced i previous (c, some e) = (λ h. absurd (ground arith), λ h. absurd (ground arith))

swap_replaced :
    (i : Inputs) (c : Generation) (r : Generation × Option Err)
    → ((swap i c r).outcome ≡ replaced)
      ↔ ((r.1 ≡ none) × ((start_generation i.start_candidate c).1 ≡ none))
swap_replaced i c (previous, none) =
    let h = finish_replaced i previous (start_generation i.start_candidate c) in
    (λ p. (refl, h.0 p), λ p. h.1 p.1)
swap_replaced i c (previous, some e) =
    (λ h. absurd (ground arith), λ h. absurd (ground (arith, h.0)))

valid_replaced :
    (i : Inputs) (v : Option Err) (g c : Generation) (r : Generation × Option Err)
    → ((if_valid v g (swap i c r)).outcome ≡ replaced)
      ↔ ((v ≡ none) × (r.1 ≡ none) × ((start_generation i.start_candidate c).1 ≡ none))
valid_replaced i none g c r =
    let h = swap_replaced i c r in (λ p. (refl, (h.0 p).0, (h.0 p).1), λ p. h.1 (p.1, p.2))
valid_replaced i (some e) g c r = (λ h. absurd (ground arith), λ h. absurd (ground (arith, h.0)))

-- The new configuration takes over exactly when it is valid, the running generation stops without an
-- error, and the candidate starts without one.
pub reload_replaced_iff :
    (fs : List Factory) (i : Inputs) (cfg : Config) (g : Generation)
    → i.loaded ≡ ok cfg
    → ((reload_from_disk fs i g).outcome ≡ replaced) ↔ (
        (i.validation cfg ≡ none)
        × ((stop_generation i.stop_previous g).1 ≡ none)
        × ((start_generation i.start_candidate (candidate fs i cfg)).1 ≡ none))
unfolding reload_from_disk
reload_replaced_iff fs i cfg g load =
    rw (load) (
      valid_replaced i (i.validation cfg) g (candidate fs i cfg)
        (stop_generation i.stop_previous g))
