-- ===== src/Plugins/Startup.antt =====
-- One round of Start: a plugin is skipped, started in a scope of its own, or everything is undone.
use home_pc_agent.Common.{
  Bool, true, false, ◌&&◌, ◌||◌, Option, none, some, Text, ◌==◌, ==_iff, lookup, insert,
  lookup-insert, contains, Err, Result, ok, err, ◌≡◌, ◌≢◌, refl, arith, Bool-cases, inl, inr, has,
  ◌∙◌,
}
use home_pc_agent.Config.{plugin_enabled, plugin_raw}
use home_pc_agent.Core.Registry.{get}
use home_pc_agent.Core.Scope.{World, close_scope, run_script, new_scope}
use home_pc_agent.Core.Scope.Releases.{held, close_scope_releases}
use home_pc_agent.Core.Scope.Ownership.{run_script-Frame}
use home_pc_agent.Core.Scope.Held.{run_script-HeldFrame}
use home_pc_agent.Core.Scope.Open.{closed-run_script}
use home_pc_agent.Plugins.{
  Manager, Running, Plugin, Factory, world, with_world, abort, Round, skipped, failed, started,
  launch, settle, built, new_plugin, try_factory, round,
}
use home_pc_agent.Plugins.Rollback.{NoOwner, NoHolder, IsAccounted, IsIdle, stop-IsIdle}

abort-IsIdle :
    (e : Err) (x : Option Err) (m : Manager)
    → IsAccounted m
    → IsIdle (abort e x m).0 × ((abort e x m).1 ≢ none)
unfolding abort
abort-IsIdle e x m a = (stop-IsIdle m a, λ h. ground arith)

-- What a round leaves: after a failure nothing, after a start an accounted manager with one more
-- running plugin.
abbrev pub Leaves : Text → Manager → Round → Type 0
Leaves id m skipped = ⊥
Leaves id m (failed (m', e)) = IsIdle m' × (e ≢ none)
Leaves id m (started m') =
    IsAccounted m'
    × ((k : Text) → has k m'.running ≡ (id == k || has k m.running))
    × (m'.sections ≡ m.sections)
    × (m'.factories ≡ m.factories)

-- A manager in the middle of a launch: all is accounted for by the running plugins and one open
-- scope more.
record IsLaunching (m : Manager) (w : World) : Type 0 where
  opened : w.scope.closed ≡ false
  entities :
      (j : Text)
      → contains w.scope.entity_ids j ≡ false
      → NoOwner m.running j
      → get j w.registry ≡ none
  handlers :
      (j : Text)
      → contains (held w.scope) j ≡ false
      → NoHolder m.running j
      → lookup j w.router.handlers ≡ none

launching :
    (id : Text) (p : Plugin) (m : Manager)
    → IsAccounted m
    → IsLaunching m (run_script p.start (world m (new_scope id))).0
launching id p m a =
    let w = world m (new_scope id) in
    record {
      opened = closed-run_script p.start w ∙ (unfold new_scope in refl);
      entities = λ j free none_owns.
          ((run_script-Frame p.start w j).stays free).0 ∙ a.entities j none_owns;
      handlers = λ j free none_holds.
          (run_script-HeldFrame p.start w j).stays free ∙ a.handlers j none_holds;
    }

failed-IsAccounted :
    (p : Plugin) (m : Manager) (w : World)
    → IsAccounted m
    → IsLaunching m w
    → IsAccounted (with_world m (close_scope p.wait w).0)
failed-IsAccounted p m w a l =
    let out = close_scope_releases p.wait w l.opened in
    record {
      opened = a.opened;
      entities = λ j free. elim (Bool-cases (contains w.scope.entity_ids j)) [
        | inl t ↦ ground (arith, out.0 j)
        | inr f ↦ ground (arith, out.0 j, l.entities j f free)
      ];
      handlers = λ j free. elim (Bool-cases (contains (held w.scope) j)) [
        | inl t ↦ ground (arith, out.1 j)
        | inr f ↦ ground (arith, out.1 j, l.handlers j f free)
      ];
    }

abbrev launched : Text → Plugin → Manager → World → Manager
launched id p m w = record m {
  registry = w.registry;
  router = w.router;
  running = insert id (record { plugin = p; scope = w.scope }) m.running;
}

started-IsAccounted :
    (id : Text) (p : Plugin) (m : Manager) (w : World)
    → lookup id m.running ≡ none
    → IsAccounted m
    → IsLaunching m w
    → IsAccounted (launched id p m w)
started-IsAccounted id p m w fresh a l =
    let r : Running = record { plugin = p; scope = w.scope } in
    record {
      opened = λ k s h. ground (arith, a.opened k s, l.opened, lookup-insert id k r m.running);
      entities = λ j free.
          l.entities j (free id r (ground (arith, lookup-insert id id r m.running, ==_iff id id)))
            (λ k s h. free k s (ground (arith, lookup-insert id k r m.running, ==_iff id k)));
      handlers = λ j free.
          l.handlers j (free id r (ground (arith, lookup-insert id id r m.running, ==_iff id id)))
            (λ k s h. free k s (ground (arith, lookup-insert id k r m.running, ==_iff id k)));
    }

settle-Leaves :
    (id : Text) (p : Plugin) (m : Manager) (w : World) (e : Option Err)
    → lookup id m.running ≡ none
    → IsAccounted m
    → IsLaunching m w
    → Leaves id m (settle id p m w e)
unfolding settle
settle-Leaves id p m w none fresh a l = (
  started-IsAccounted id p m w fresh a l,
  (λ k. ground (arith, lookup-insert id k (record { plugin = p; scope = w.scope }) m.running)),
  refl,
  refl,
)
settle-Leaves id p m w (some e) fresh a l = abort-IsIdle _ _ _ (failed-IsAccounted p m w a l)

launch-Leaves :
    (id : Text) (p : Plugin) (m : Manager)
    → lookup id m.running ≡ none
    → IsAccounted m
    → Leaves id m (launch id p m)
unfolding launch
launch-Leaves id p m fresh a = settle-Leaves id p m _ _ fresh a (launching id p m a)

built-Leaves :
    (id : Text) (p : Result Plugin) (m : Manager)
    → lookup id m.running ≡ none
    → IsAccounted m
    → Leaves id m (built id p m)
unfolding built
built-Leaves id (ok p) m fresh a = launch-Leaves id p m fresh a
built-Leaves id (err e) m fresh a = abort-IsIdle _ none m a

-- the plugins that a start is to run
abbrev pub wanted : Manager → Text → Bool
wanted m k = plugin_enabled k m.sections && has k m.factories

abbrev pub RoundLeaves : Text → Manager → Round → Type 0
RoundLeaves id m skipped = wanted m id ≡ false
RoundLeaves id m (failed result) = Leaves id m (failed result)
RoundLeaves id m (started m') = Leaves id m (started m') × (wanted m id ≡ true)

try_factory-Leaves :
    (id : Text) (o : Option Factory) (m : Manager)
    → lookup id m.factories ≡ o
    → plugin_enabled id m.sections ≡ true
    → lookup id m.running ≡ none
    → IsAccounted m
    → RoundLeaves id m (try_factory id o m)
unfolding try_factory
try_factory-Leaves id none m e on fresh a = ground arith
try_factory-Leaves id (some f) m e on fresh a =
    with_wanted (built id (new_plugin f (plugin_raw id m.sections)) m)
      (built-Leaves id (new_plugin f (plugin_raw id m.sections)) m fresh a)
  where
    with_wanted : (r : Round) → Leaves id m r → RoundLeaves id m r
    with_wanted skipped l = absurd l
    with_wanted (failed result) l = l
    with_wanted (started m') l = (l, ground arith)

pub round-Leaves :
    (id : Text) (m : Manager)
    → lookup id m.running ≡ none
    → IsAccounted m
    → RoundLeaves id m (round id m)
unfolding round
round-Leaves id m fresh a = elim (Bool-cases (plugin_enabled id m.sections)) [
  | inl on ↦ rw (on, fresh) (try_factory-Leaves id (lookup id m.factories) m refl on fresh a)
  | inr off ↦ rw off (ground arith)
]
