-- ===== src/Plugins/Frame.antt =====
-- Starting and stopping plugins changes neither the configuration nor the factories.
use mathlib.Core.List.{reverse}
use home_pc_agent.Common.{
  Option, none, some, List, [], ◌∷◌, Text, lookup, keys, sort, Err, Result, ok, err, ◌≡◌, refl, ◌∙◌,
  Bool-cases, inl, inr, has,
}
use home_pc_agent.Config.{plugin_raw, plugin_enabled}
use home_pc_agent.Core.Scope.{World, close_scope, run_script, new_scope}
use home_pc_agent.Plugins.{
  Manager, Running, Plugin, Factory, Round, skipped, failed, started, stop_found, stop_one,
  stop_loop, stop, abort, settle, launch, built, try_factory, round, new_plugin, continue,
  start_loop, start, world, with_world,
}

abbrev pub Keeps : Manager → Manager → Type 0
Keeps m m' = (m'.sections ≡ m.sections) × (m'.factories ≡ m.factories)

Keeps-trans : (m n o : Manager) → Keeps m n → Keeps n o → Keeps m o
Keeps-trans m n o h k = (k.0 ∙ h.0, k.1 ∙ h.1)

stop_found-Keeps : (id : Text) (o : Option Running) (m : Manager) → Keeps m (stop_found id o m).0
unfolding stop_one
stop_found-Keeps id none m = (refl, refl)
stop_found-Keeps id (some r) m = (refl, refl)

stop_loop-Keeps : (ids : List Text) (m : Manager) → Keeps m (stop_loop ids m).0
unfolding stop_loop
stop_loop-Keeps [] m = (refl, refl)
stop_loop-Keeps (id ∷ ids) m =
    let m' = (stop_found id (lookup id m.running) m).0 in
    Keeps-trans m m' (stop_loop ids m').0 (stop_found-Keeps id (lookup id m.running) m)
      (stop_loop-Keeps ids m')

pub stop-Keeps : (m : Manager) → Keeps m (stop m).0
unfolding stop
stop-Keeps m = stop_loop-Keeps (reverse (sort (keys m.running))) m

-- what a round leaves
abbrev RoundKeeps : Manager → Round → Type 0
RoundKeeps m skipped = Unit
RoundKeeps m (failed (m', _)) = Keeps m m'
RoundKeeps m (started m') = Keeps m m'

settle-RoundKeeps :
    (id : Text) (p : Plugin) (m : Manager) (w : World) (o : Option Err)
    → RoundKeeps m (settle id p m w o)
unfolding settle abort
settle-RoundKeeps id p m w none = (refl, refl)
settle-RoundKeeps id p m w (some e) = stop-Keeps (with_world m (close_scope p.wait w).0)

built-RoundKeeps : (id : Text) (r : Result Plugin) (m : Manager) → RoundKeeps m (built id r m)
unfolding built launch abort
built-RoundKeeps id (err e) m = stop-Keeps m
built-RoundKeeps id (ok p) m =
    let (w, error) = run_script p.start (world m (new_scope id)) in settle-RoundKeeps id p m w error

try_factory-RoundKeeps :
    (id : Text) (o : Option Factory) (m : Manager) → RoundKeeps m (try_factory id o m)
unfolding try_factory
try_factory-RoundKeeps id none m = tt
try_factory-RoundKeeps id (some f) m =
    built-RoundKeeps id (new_plugin f (plugin_raw id m.sections)) m

round-RoundKeeps : (id : Text) (m : Manager) → RoundKeeps m (round id m)
unfolding round
round-RoundKeeps id m = elim (Bool-cases (plugin_enabled id m.sections)) [
  | inl on ↦ rw (on) (elim (Bool-cases (has id m.running)) [
    | inl runs ↦ rw (runs) (refl, refl)
    | inr not_yet ↦ rw (not_yet) (try_factory-RoundKeeps id (lookup id m.factories) m)
  ])
  | inr off ↦ rw (off) tt
]

continue-Keeps :
    (rest : Manager → Manager × Option Err) (m : Manager) (r : Round)
    → ((m' : Manager) → Keeps m' (rest m').0)
    → RoundKeeps m r
    → Keeps m (continue rest m r).0
continue-Keeps rest m skipped h k = h m
continue-Keeps rest m (failed (m', e)) h k = k
continue-Keeps rest m (started m') h k = Keeps-trans m m' (rest m').0 k (h m')

start_loop-Keeps : (ids : List Text) (m : Manager) → Keeps m (start_loop ids m).0
unfolding start_loop
start_loop-Keeps [] m = (refl, refl)
start_loop-Keeps (id ∷ ids) m =
    continue-Keeps (start_loop ids) m (round id m) (λ m'. start_loop-Keeps ids m')
      (round-RoundKeeps id m)

pub start-Keeps : (m : Manager) → Keeps m (start m).0
unfolding start
start-Keeps m = start_loop-Keeps (sort (keys m.factories)) m
