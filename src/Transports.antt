-- ===== src/Transports.antt =====
-- internal/core/transport_manager.go: starting the transports in the order of their ids, and
-- stopping the started ones in reverse.
pub mod Starting
pub mod Within
use mathlib.Core.List.{reverse}
use home_pc_agent.Common.{
  Bool, true, false, Option, none, some, List, [], ◌∷◌, Text, Err, start_transport, stop_transport,
  join_errors, or_else, sort, contains, ◌==◌, if◌then◌else◌,
}

-- The ids of the transports, and those of the started ones (a Go map without values). A transport
-- itself is known by what its calls return.
pub record Transports : Type 0 where
  pub ids : List Text
  pub started : List Text

-- What the transports' Start and Stop return during one call of the manager, which calls each of
-- them at most once.
pub record Answers : Type 0 where
  pub starts : Text → Option Err
  pub stops : Text → Option Err

unfoldable pub distinct_ids : List Text → List Text
unfolding contains
distinct_ids [] = []
distinct_ids (id ∷ ids) =
    let rest = distinct_ids ids in if contains rest id then rest else id ∷ rest

-- NewTransportManager: the ids are the keys of a map.
unfoldable pub new_transports : List Text → Transports
unfolding distinct_ids
new_transports ids = record { ids = distinct_ids ids; started = [] }

-- m.started[id] = struct{}{}
unfoldable pub add_started : Text → List Text → List Text
unfolding contains
add_started id ids = if contains ids id then ids else id ∷ ids

-- delete(m.started, id)
unfoldable pub remove_started : Text → List Text → List Text
unfolding ◌==◌
remove_started id [] = []
remove_started id (x ∷ ids) = let rest = remove_started id ids in if x == id then rest else x ∷ rest

abbrev pub stop_outcome : Text → Option Err → Transports → Transports × Option Err
stop_outcome id (some e) m = (m, some (stop_transport id e))
stop_outcome id none m = (record m { started = remove_started id m.started }, none)

unfoldable pub stop_each : (Text → Option Err) → List Text → Transports → Transports × Option Err
unfolding remove_started
stop_each stops [] m = (m, none)
stop_each stops (id ∷ ids) m =
    let (m', first) = stop_outcome id (stops id) m in
    let (m'', later) = stop_each stops ids m' in (m'', or_else first later)

unfoldable pub stop_transports : (Text → Option Err) → Transports → Transports × Option Err
unfolding stop_each sort
stop_transports stops m = stop_each stops (reverse (sort m.started)) m

-- a failed Start stops what is started and joins the errors
unfoldable pub start_failed : Answers → Text → Err → Transports → Transports × Option Err
unfolding stop_transports
start_failed a id e m =
    let (m', cleanup_error) = stop_transports a.stops m in
    (m', join_errors (some (start_transport id e)) cleanup_error)

-- the loop body's outcome, with the rest of the loop
abbrev pub start_outcome :
    Answers
    → Text
    → Option Err
    → (Transports → Transports × Option Err)
    → Transports
    → Transports × Option Err
start_outcome a id (some e) rest m = start_failed a id e m
start_outcome a id none rest m = rest (record m { started = add_started id m.started })

unfoldable pub start_each : Answers → List Text → Transports → Transports × Option Err
unfolding start_failed add_started contains
start_each a [] m = (m, none)
start_each a (id ∷ ids) m =
    if contains m.started id
    then start_each a ids m
    else start_outcome a id (a.starts id) (λ m'. start_each a ids m') m

unfoldable pub start_transports : Answers → Transports → Transports × Option Err
unfolding start_each sort
start_transports a m = start_each a (sort m.ids) m
