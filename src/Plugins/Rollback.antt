-- ===== src/Plugins/Rollback.antt =====
-- A failed start leaves nothing behind, and neither does a stop.
use mathlib.Core.List.{reverse}
use home_pc_agent.Common.{
  false, Option, none, some, List, [], ◌∷◌, Text, ◌==◌, ==_iff, Dict, lookup, delete, keys,
  lookup-delete, contains, contains-keys, contains-sort, contains-reverse, sort, ◌≡◌, refl, arith,
  if◌then◌else◌, Bool-cases, inl, inr,
}
use home_pc_agent.Core.Registry.{get}
use home_pc_agent.Core.Scope.Releases.{held, close_scope_releases}
use home_pc_agent.Plugins.{Manager, Running, world, stop_one, stop_found, stop_loop, stop}

-- No running plugin's scope owns the entity, or holds the handler, at an id.
abbrev pub NoOwner : Dict Running → Text → Type 0
NoOwner running id =
    (k : Text) (r : Running) → lookup k running ≡ some r → contains r.scope.entity_ids id ≡ false

abbrev pub NoHolder : Dict Running → Text → Type 0
NoHolder running id =
    (k : Text) (r : Running) → lookup k running ≡ some r → contains (held r.scope) id ≡ false

-- Every entity and every handler belongs to the open scope of a running plugin.
pub record IsAccounted (m : Manager) : Type 0 where
  pub opened : (k : Text) (r : Running) → lookup k m.running ≡ some r → r.scope.closed ≡ false
  pub entities : (id : Text) → NoOwner m.running id → get id m.registry ≡ none
  pub handlers : (id : Text) → NoHolder m.running id → lookup id m.router.handlers ≡ none

-- Who owned nothing before the scope of `id` went owned nothing at all, if that scope did not.
NoOwner-before :
    (id j : Text) (r : Running) (running : Dict Running)
    → lookup id running ≡ some r
    → contains r.scope.entity_ids j ≡ false
    → NoOwner (delete id running) j
    → NoOwner running j
NoOwner-before id j r running found f free k s h =
    ground (arith, free k s, lookup-delete id k running, ==_iff id k)

NoHolder-before :
    (id j : Text) (r : Running) (running : Dict Running)
    → lookup id running ≡ some r
    → contains (held r.scope) j ≡ false
    → NoHolder (delete id running) j
    → NoHolder running j
NoHolder-before id j r running found f free k s h =
    ground (arith, free k s, lookup-delete id k running, ==_iff id k)

stop_one-IsAccounted :
    (id : Text) (r : Running) (m : Manager)
    → lookup id m.running ≡ some r
    → IsAccounted m
    → IsAccounted (stop_one id r m).0
unfolding stop_one
stop_one-IsAccounted id r m found a =
    let out = close_scope_releases r.plugin.wait (world m r.scope) (a.opened id r found) in
    record {
      opened = λ k s h. ground (arith, a.opened k s, lookup-delete id k m.running);
      entities = λ j free. elim (Bool-cases (contains r.scope.entity_ids j)) [
        | inl t ↦ ground (arith, out.0 j)
        | inr f ↦
            ground (arith, out.0 j, a.entities j (NoOwner-before id j r m.running found f free))
      ];
      handlers = λ j free. elim (Bool-cases (contains (held r.scope) j)) [
        | inl t ↦ ground (arith, out.1 j)
        | inr f ↦
            ground (arith, out.1 j, a.handlers j (NoHolder-before id j r m.running found f free))
      ];
    }

stop_found-IsAccounted :
    (id : Text) (o : Option Running) (m : Manager)
    → lookup id m.running ≡ o
    → IsAccounted m
    → IsAccounted (stop_found id o m).0
stop_found-IsAccounted id none m e a = a
stop_found-IsAccounted id (some r) m e a = stop_one-IsAccounted id r m e a

stop_loop-IsAccounted :
    (ids : List Text) (m : Manager) → IsAccounted m → IsAccounted (stop_loop ids m).0
unfolding stop_loop
stop_loop-IsAccounted [] m a = a
stop_loop-IsAccounted (id ∷ ids) m a =
    stop_loop-IsAccounted ids (stop_found id (lookup id m.running) m).0
      (stop_found-IsAccounted id (lookup id m.running) m refl a)

-- what the loop of Stop leaves running
lookup-stop_found :
    (id k : Text) (o : Option Running) (m : Manager)
    → lookup id m.running ≡ o
    → lookup k (stop_found id o m).0.running ≡ (if id == k then none else lookup k m.running)
unfolding stop_one
lookup-stop_found id k none m e = ground (arith, ==_iff id k)
lookup-stop_found id k (some r) m e = lookup-delete id k m.running

lookup-stop_loop :
    (ids : List Text) (k : Text) (m : Manager)
    → lookup k (stop_loop ids m).0.running ≡ (if contains ids k then none else lookup k m.running)
unfolding stop_loop contains
lookup-stop_loop [] k m = refl
lookup-stop_loop (id ∷ ids) k m = ground (
  arith,
  lookup-stop_loop ids k (stop_found id (lookup id m.running) m).0,
  lookup-stop_found id k (lookup id m.running) m refl,
)

lookup-stop : (k : Text) (m : Manager) → lookup k (stop m).0.running ≡ none
unfolding stop
lookup-stop k m = ground (
  arith,
  lookup-stop_loop (reverse (sort (keys m.running))) k m,
  contains-reverse (sort (keys m.running)) k,
  contains-sort k (keys m.running),
  contains-keys k m.running,
)

-- Nothing runs, and nothing of any plugin is registered or subscribed.
pub record IsIdle (m : Manager) : Type 0 where
  pub running : (k : Text) → lookup k m.running ≡ none
  pub entities : (id : Text) → get id m.registry ≡ none
  pub handlers : (id : Text) → lookup id m.router.handlers ≡ none

IsIdle-of_stopped :
    (m : Manager) → IsAccounted m → ((k : Text) → lookup k m.running ≡ none) → IsIdle m
IsIdle-of_stopped m a empty = record {
  running = empty;
  entities = λ id. a.entities id (λ k r h. absurd (ground (arith, empty k)));
  handlers = λ id. a.handlers id (λ k r h. absurd (ground (arith, empty k)));
}

pub IsIdle-IsAccounted : (m : Manager) → IsIdle m → IsAccounted m
IsIdle-IsAccounted m i = record {
  opened = λ k r h. absurd (ground (arith, i.running k));
  entities = λ id _. i.entities id;
  handlers = λ id _. i.handlers id;
}

-- After Stop, whatever the plugins' own Stop functions and tasks return, no plugin runs, and no
-- entity and no handler of any plugin is left.
pub stop-IsIdle : (m : Manager) → IsAccounted m → IsIdle (stop m).0
stop-IsIdle m a =
    IsIdle-of_stopped (stop m).0
      (unfold stop in stop_loop-IsAccounted (reverse (sort (keys m.running))) m a)
      (λ k. lookup-stop k m)
