-- ===== src/Transports/Within.antt =====
-- Only transports of the manager are ever started.
use mathlib.Core.List.{reverse}
use home_pc_agent.Common.{
  true, Option, none, some, List, [], ◌∷◌, Text, Err, sort, contains, contains-sort, ==_iff,
  ==_refl, ◌≡◌, refl, ◌∙◌, arith, Bool-cases, inl, inr,
}
use home_pc_agent.Transports.{
  Transports, Answers, add_started, stop_outcome, stop_each, stop_transports, start_failed,
  start_outcome, start_each, start_transports,
}
use home_pc_agent.Transports.Starting.{stop_transports-started, contains-add_started}

abbrev pub IsWithin : Transports → Type 0
IsWithin m = (k : Text) → contains m.started k ≡ true → contains m.ids k ≡ true

-- The ids are kept, and what is started stays within them.
abbrev pub StaysWithin : Transports → Transports → Type 0
StaysWithin m m' = (m'.ids ≡ m.ids) × IsWithin m'

stop_outcome-ids :
    (id : Text) (o : Option Err) (m : Transports) → (stop_outcome id o m).0.ids ≡ m.ids
stop_outcome-ids id none m = refl
stop_outcome-ids id (some e) m = refl

stop_each-ids :
    (stops : Text → Option Err) (ids : List Text) (m : Transports)
    → (stop_each stops ids m).0.ids ≡ m.ids
unfolding stop_each
stop_each-ids stops [] m = refl
stop_each-ids stops (id ∷ ids) m =
    stop_each-ids stops ids (stop_outcome id (stops id) m).0 ∙ stop_outcome-ids id (stops id) m

stop_transports-ids :
    (stops : Text → Option Err) (m : Transports) → (stop_transports stops m).0.ids ≡ m.ids
unfolding stop_transports
stop_transports-ids stops m = stop_each-ids stops (reverse (sort m.started)) m

pub stop_transports-StaysWithin :
    (stops : Text → Option Err) (m : Transports)
    → IsWithin m
    → StaysWithin m (stop_transports stops m).0
stop_transports-StaysWithin stops m w = (
  stop_transports-ids stops m,
  λ k c. ground (arith, w k, c, stop_transports-ids stops m, stop_transports-started stops m k),
)

add_started-IsWithin :
    (id : Text) (m : Transports)
    → contains m.ids id ≡ true
    → IsWithin m
    → IsWithin (record m { started = add_started id m.started })
add_started-IsWithin id m h w k c =
    ground (arith, w k, c, h, ==_iff id k, contains-add_started k id m.started)

tried-StaysWithin :
    (a : Answers) (id : Text) (o : Option Err) (rest : Transports → Transports × Option Err)
    (m : Transports)
    → contains m.ids id ≡ true
    → IsWithin m
    → ((m1 : Transports) → m1.ids ≡ m.ids → IsWithin m1 → StaysWithin m1 (rest m1).0)
    → StaysWithin m (start_outcome a id o rest m).0
unfolding start_failed
tried-StaysWithin a id (some e) rest m h w go = stop_transports-StaysWithin a.stops m w
tried-StaysWithin a id none rest m h w go =
    go (record m { started = add_started id m.started }) refl (add_started-IsWithin id m h w)

start_each-StaysWithin :
    (a : Answers) (ids : List Text) (m : Transports)
    → ((k : Text) → contains ids k ≡ true → contains m.ids k ≡ true)
    → IsWithin m
    → StaysWithin m (start_each a ids m).0
unfolding start_each contains
start_each-StaysWithin a [] m h w = (refl, w)
start_each-StaysWithin a (id ∷ ids) m h w =
    let tail : (k : Text) → contains ids k ≡ true → contains m.ids k ≡ true =
      λ k c. ground (arith, h k, c) in
    elim (Bool-cases (contains m.started id)) [
      | inl on ↦ rw (on) (start_each-StaysWithin a ids m tail w)
      | inr off ↦ rw (off) (
          tried-StaysWithin a id (a.starts id) (λ m1. start_each a ids m1) m
            (ground (arith, h id, ==_refl id)) w
            (λ m1 e w1. start_each-StaysWithin a ids m1 (λ k c. ground (arith, tail k, c, e)) w1))
    ]

pub start_transports-StaysWithin :
    (a : Answers) (m : Transports) → IsWithin m → StaysWithin m (start_transports a m).0
unfolding start_transports
start_transports-StaysWithin a m w =
    start_each-StaysWithin a (sort m.ids) m (λ k c. ground (arith, contains-sort k m.ids, c)) w
