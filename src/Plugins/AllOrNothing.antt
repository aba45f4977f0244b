-- ===== src/Plugins/AllOrNothing.antt =====
-- Start either runs exactly the enabled plugins that have a factory, or leaves nothing behind.
use home_pc_agent.Common.{
  true, false, ◌&&◌, ◌||◌, Option, none, some, List, [], ◌∷◌, Text, ◌==◌, ==_iff, lookup, keys,
  contains, distinct, distinct-sort, contains-keys, contains-sort, sort, Err, ◌≡◌, refl, arith, has,
}
use home_pc_agent.Plugins.{
  Manager, Round, skipped, failed, started, round, continue, start_loop, start,
}
use home_pc_agent.Plugins.Rollback.{IsAccounted, IsIdle, IsIdle-IsAccounted}
use home_pc_agent.Plugins.Startup.{RoundLeaves, wanted, round-Leaves}

-- What the loop of Start leaves: accounted running plugins, all that were wanted among the ids, or
-- an idle manager.
abbrev Ends : List Text → Manager → Manager × Option Err → Type 0
Ends ids m (m', none) =
    IsAccounted m'
    × ((k : Text) → has k m'.running ≡ (has k m.running || (contains ids k && wanted m k)))
Ends ids m (m', some _) = IsIdle m'

Ends-skipped :
    (id : Text) (ids : List Text) (m : Manager) (result : Manager × Option Err)
    → wanted m id ≡ false
    → Ends ids m result
    → Ends (id ∷ ids) m result
Ends-skipped id ids m (m', none) off (a, runs) =
    (a, λ k. unfold contains in ground (arith, runs k, ==_iff id k))
Ends-skipped id ids m (m', some e) off i = i

abbrev AreFresh : List Text → Manager → Type 0
AreFresh ids m = (k : Text) → contains ids k ≡ true → has k m.running ≡ false

Ends-started :
    (id : Text) (ids : List Text) (m next : Manager) (result : Manager × Option Err)
    → ((k : Text) → has k next.running ≡ (id == k || has k m.running))
    → next.sections ≡ m.sections
    → next.factories ≡ m.factories
    → wanted m id ≡ true
    → Ends ids next result
    → Ends (id ∷ ids) m result
Ends-started id ids m next (m', none) runs es ef on (a, more) =
    (a, λ k. unfold contains in ground (arith, runs k, more k, ==_iff id k))
Ends-started id ids m next (m', some e) runs es ef on i = i

AreFresh-tail : (id : Text) (ids : List Text) (m : Manager) → AreFresh (id ∷ ids) m → AreFresh ids m
unfolding contains
AreFresh-tail id ids m f k c = f k (ground arith)

AreFresh-started :
    (id : Text) (ids : List Text) (m next : Manager)
    → contains ids id ≡ false
    → ((k : Text) → has k next.running ≡ (id == k || has k m.running))
    → AreFresh (id ∷ ids) m
    → AreFresh ids next
unfolding contains
AreFresh-started id ids m next n runs f k c = ground (arith, runs k, f k, ==_iff id k)

-- one round, then the rest of the loop by `rest`
continue-Ends :
    (id : Text) (ids : List Text) (m : Manager) (rest : Manager → Manager × Option Err)
    → ((m' : Manager) → AreFresh ids m' → IsAccounted m' → Ends ids m' (rest m'))
    → contains ids id ≡ false
    → AreFresh (id ∷ ids) m
    → IsAccounted m
    → (r : Round) → RoundLeaves id m r
    → Ends (id ∷ ids) m (continue rest m r)
continue-Ends id ids m rest go n f a skipped off =
    Ends-skipped id ids m (rest m) off (go m (AreFresh-tail id ids m f) a)
continue-Ends id ids m rest go n f a (failed (m', some e)) l = l.0
continue-Ends id ids m rest go n f a (failed (m', none)) l = absurd (l.1 refl)
continue-Ends id ids m rest go n f a (started m') (l, on) =
    Ends-started id ids m m' (rest m') l.1 l.2 l.3 on
      (go m' (AreFresh-started id ids m m' n l.1 f) l.0)

distinct_tail : (id : Text) (ids : List Text) → distinct (id ∷ ids) ≡ true → distinct ids ≡ true
unfolding distinct
distinct_tail id ids d = ground arith

distinct_head : (id : Text) (ids : List Text) → distinct (id ∷ ids) ≡ true → contains ids id ≡ false
unfolding distinct
distinct_head id ids d = ground arith

fresh_head :
    (id : Text) (ids : List Text) (m : Manager) → AreFresh (id ∷ ids) m → lookup id m.running ≡ none
unfolding contains
fresh_head id ids m f = ground (arith, f id, ==_iff id id)

start_loop-Ends :
    (ids : List Text) (m : Manager)
    → distinct ids ≡ true
    → AreFresh ids m
    → IsAccounted m
    → Ends ids m (start_loop ids m)
unfolding start_loop contains
start_loop-Ends [] m d f a = (a, λ k. ground arith)
start_loop-Ends (id ∷ ids) m d f a =
    continue-Ends id ids m (start_loop ids)
      (λ m' f' a'. start_loop-Ends ids m' (distinct_tail id ids d) f' a') (distinct_head id ids d) f
      a (round id m) (round-Leaves id m (fresh_head id ids m f) a)

abbrev pub AllOrNothing : Manager → Manager × Option Err → Type 0
AllOrNothing m (m', none) = IsAccounted m' × ((k : Text) → has k m'.running ≡ wanted m k)
AllOrNothing m (m', some _) = IsIdle m'

-- Started on an idle manager, Start either succeeds, and then the running plugins are exactly the
-- enabled ones that have a factory, and every entity and handler belongs to one of them; or it
-- returns an error, and then no plugin runs and nothing that any plugin did is left.
pub start-AllOrNothing :
    (m : Manager) → distinct (keys m.factories) ≡ true → IsIdle m → AllOrNothing m (start m)
unfolding start
start-AllOrNothing m d i = outcome (start_loop (sort (keys m.factories)) m) (
    start_loop-Ends (sort (keys m.factories)) m (distinct-sort (keys m.factories) d)
      (λ k c. ground (arith, i.running k)) (IsIdle-IsAccounted m i))
  where
    outcome :
        (result : Manager × Option Err)
        → Ends (sort (keys m.factories)) m result
        → AllOrNothing m result
    outcome (m', some e) l = l
    outcome (m', none) (a, runs) = (
      a,
      λ k. ground (
        arith,
        runs k,
        i.running k,
        contains-sort k (keys m.factories),
        contains-keys k m.factories,
      ),
    )
