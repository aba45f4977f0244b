-- ===== src/Transports/Starting.antt =====
-- Which transports are started after Start and after Stop.
use mathlib.Core.List.{reverse}
use home_pc_agent.Common.{
  true, not, ◌&&◌, ◌||◌, Option, none, some, List, [], ◌∷◌, Text, Err, join_errors, sort, contains,
  contains-sort, contains-reverse, ◌==◌, ==_iff, is_some, ◌≡◌, arith, Option-cases, inl, inr,
  Bool-cases,
}
use home_pc_agent.Common.{start_transport}
use home_pc_agent.Transports.{
  Transports, Answers, add_started, remove_started, stop_each, stop_transports, start_failed,
  start_outcome, start_each, start_transports,
}

pub contains-add_started :
    (k id : Text) (ids : List Text) → contains (add_started id ids) k ≡ (id == k || contains ids k)
unfolding add_started contains
contains-add_started k id ids = ground (arith, ==_iff id k)

contains-remove_started :
    (k id : Text) (ids : List Text)
    → contains (remove_started id ids) k ≡ (not (id == k) && contains ids k)
unfolding remove_started contains
contains-remove_started k id [] = ground arith
contains-remove_started k id (x ∷ ids) =
    ground (arith, contains-remove_started k id ids, ==_iff x id, ==_iff x k, ==_iff id k)

-- an id is still started after the loop if it was not tried, or its Stop failed
stop_each-started :
    (stops : Text → Option Err) (ids : List Text) (m : Transports) (k : Text)
    → contains (stop_each stops ids m).0.started k
      ≡ (contains m.started k && (is_some (stops k) || not (contains ids k)))
unfolding stop_each contains
stop_each-started stops [] m k = ground arith
stop_each-started stops (id ∷ ids) m k = elim (Option-cases (stops id)) [
  | inl h ↦
      let m' = record m { started = remove_started id m.started } in
      rw (h) (
        ground (
          arith,
          stop_each-started stops ids m' k,
          contains-remove_started k id m.started,
          ==_iff id k,
          h,
        ))
  | inr (e, h) ↦ rw (h) (ground (arith, stop_each-started stops ids m k, ==_iff id k, h))
]

-- After Stop, a transport is started exactly if it was and its own Stop failed.
pub stop_transports-started :
    (stops : Text → Option Err) (m : Transports) (k : Text)
    → contains (stop_transports stops m).0.started k ≡ (contains m.started k && is_some (stops k))
unfolding stop_transports
stop_transports-started stops m k = ground (
  arith,
  stop_each-started stops (reverse (sort m.started)) m k,
  contains-reverse (sort m.started) k,
  contains-sort k m.started,
)

-- what a Start reaches: on success, the transports of `ids` are started besides those that were;
-- on failure, only transports whose Stop failed are
abbrev pub Started : Answers → List Text → Transports → Transports × Option Err → Type 0
Started a ids m (m', none) =
    (k : Text) → contains m'.started k ≡ (contains m.started k || contains ids k)
Started a ids m (m', some _) =
    (k : Text) → contains m'.started k ≡ true → is_some (a.stops k) ≡ true

failed-Started :
    (a : Answers) (id : Text) (e : Err) (ids : List Text) (m : Transports)
    → Started a ids m (start_failed a id e m)
unfolding start_failed
failed-Started a id e ids m = joined (stop_transports a.stops m) (stop_transports-started a.stops m)
  where
    joined :
        (r : Transports × Option Err)
        → ((k : Text) → contains r.0.started k ≡ (contains m.started k && is_some (a.stops k)))
        → Started a ids m (r.0, join_errors (some (start_transport id e)) r.1)
    joined (m', none) h = λ k c. ground (arith, h k, c)
    joined (m', some _) h = λ k c. ground (arith, h k, c)

one_more :
    (a : Answers) (id : Text) (ids : List Text) (m m1 : Transports) (r : Transports × Option Err)
    → ((k : Text) → contains m1.started k ≡ (id == k || contains m.started k))
    → Started a ids m1 r
    → Started a (id ∷ ids) m r
unfolding contains
one_more a id ids m m1 (m', none) h s = λ k. ground (arith, s k, h k)
one_more a id ids m m1 (m', some _) h s = s

tried :
    (a : Answers) (id : Text) (ids : List Text) (m : Transports) (o : Option Err)
    → ((m1 : Transports) → Started a ids m1 (start_each a ids m1))
    → Started a (id ∷ ids) m (start_outcome a id o (λ m'. start_each a ids m') m)
tried a id ids m (some e) go = failed-Started a id e (id ∷ ids) m
tried a id ids m none go =
    let m1 = record m { started = add_started id m.started } in
    one_more a id ids m m1 (start_each a ids m1) (λ k. contains-add_started k id m.started) (go m1)

start_each-Started :
    (a : Answers) (ids : List Text) (m : Transports) → Started a ids m (start_each a ids m)
unfolding start_each
start_each-Started a [] m = λ k. unfold contains in ground arith
start_each-Started a (id ∷ ids) m = elim (Bool-cases (contains m.started id)) [
  | inl h ↦ rw (h) (
      one_more a id ids m m (start_each a ids m) (λ k. ground (arith, ==_iff id k, h))
        (start_each-Started a ids m))
  | inr h ↦ rw (h) (tried a id ids m (a.starts id) (λ m1. start_each-Started a ids m1))
]

sorted-Started :
    (a : Answers) (m : Transports) (r : Transports × Option Err)
    → Started a (sort m.ids) m r
    → Started a m.ids m r
sorted-Started a m (m', none) h = λ k. ground (arith, h k, contains-sort k m.ids)
sorted-Started a m (m', some _) h = h

-- After a Start that succeeds, the started transports are those that were and all of the manager's;
-- after one that fails, at most those whose own Stop fails.
pub start_transports-Started :
    (a : Answers) (m : Transports) → Started a m.ids m (start_transports a m)
unfolding start_transports
start_transports-Started a m =
    sorted-Started a m (start_each a (sort m.ids) m) (start_each-Started a (sort m.ids) m)
