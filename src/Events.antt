-- ===== src/Events.antt =====
-- internal/core/events/bus.go: the event bus. Each subscription has an unbounded queue under a
-- mutex, a goroutine `run` that moves the queue into a buffered channel, and two signals: `ready`
-- (a channel of capacity 1) and `done` (closed once).
pub mod Session
pub mod Delivery
pub mod Publishing
use home_pc_agent.Common.{
  ℕ, ◌+◌, Bool, true, false, Option, none, some, List, [], ◌∷◌, ◌++◌, map, Text, Value,
  if◌then◌else◌, length, ltb, nat_eq, ◌≡◌,
}
use home_pc_agent.Entity.{Entity, Availability}

pub data EventType : Type 0 where
  entity_added entity_updated entity_removed state_changed availability_changed : EventType

-- `entity`, `state` and `availability` are none where the code leaves the field at its zero value;
-- the time 0 is the zero time.
pub record Event : Type 0 where
  pub event_type : EventType
  pub entity_id : Text
  pub entity : Option Entity
  pub state : Option Value
  pub availability : Option Availability
  pub time : ℕ

-- Where the goroutine `run` stands: before `next`, in the select on `done` and `ready`, in the
-- select that sends an event, or returned (the channel `events` is then closed).
pub data Pc : Type 0 where
  polling waiting : Pc
  sending : Event → Pc
  stopped : Pc

pub record Subscription : Type 0 where
  pub buffer : ℕ
  pub events : List Event
  pub ready : Bool
  pub done : Bool
  pub queue : List Event
  pub closed : Bool
  pub pc : Pc

-- newSubscription, started by `go sub.run()`
unfoldable pub new_subscription : ℕ → Subscription
new_subscription buffer = record {
  buffer = buffer;
  events = [];
  ready = false;
  done = false;
  queue = [];
  closed = false;
  pc = polling;
}

-- The two steps of `enqueue`: under the mutex the event is appended, unless the subscription is
-- closed; then, without the mutex, `ready` is signalled, which does nothing if it is so already.
unfoldable pub append : Event → Subscription → Subscription
append e s = if s.closed then s else record s { queue = s.queue ++ e ∷ [] }

unfoldable pub signal : Subscription → Subscription
signal s = record s { ready = true }

-- both, with no step of another goroutine between them
unfoldable pub enqueue : Event → Subscription → Subscription
unfolding append signal
enqueue e s = if s.closed then s else signal (append e s)

-- close: the closure of `closeOnce`, which a second call does not run
unfoldable pub close : Subscription → Subscription
close s = if s.done then s else record s { closed = true; queue = []; done = true }

unfoldable pub next : Subscription → Option Event × Subscription
next s = elim s.queue [ [] ↦ (none, s) | e ∷ rest ↦ (some e, record s { queue = rest }) ]

unfoldable pub poll : Subscription → Subscription
unfolding next
poll s =
    let (event, s') = next s in
    record s' { pc = elim event [ none ↦ waiting | some e ↦ sending e ] }

-- One step of the goroutine or of the receiver; `none` where the step cannot be taken.
pub data Action : Type 0 where
  take wake stop push receive : Action

step_waiting : Action → Subscription → Option Subscription
step_waiting wake s = if s.ready then some (record s { ready = false; pc = polling }) else none
step_waiting stop s = if s.done then some (record s { pc = stopped }) else none
step_waiting _ s = none

step_sending : Event → Action → Subscription → Option Subscription
step_sending e push s =
    if ltb (length s.events) s.buffer
    then some (record s { events = s.events ++ e ∷ []; pc = polling })
    else none
step_sending e stop s = if s.done then some (record s { pc = stopped }) else none
step_sending e _ s = none

step_polling : Action → Subscription → Option Subscription
unfolding poll
step_polling take s = some (poll s)
step_polling _ s = none

-- the loop of `run`
unfoldable pub run_step : Pc → Action → Subscription → Option Subscription
unfolding step_waiting step_sending step_polling
run_step polling a s = step_polling a s
run_step waiting a s = step_waiting a s
run_step (sending e) a s = step_sending e a s
run_step stopped a s = none

-- Publish stamps the event with the time and puts it into the queue of every subscription.
pub record Bus : Type 0 where
  pub subs : List (ℕ × Subscription)
  pub now : ℕ

unfoldable pub stamp : ℕ → Event → Event
stamp now e = if nat_eq e.time 0 then record e { time = now } else e

unfoldable pub enqueue_all : Event → List (ℕ × Subscription) → List (ℕ × Subscription)
unfolding enqueue
enqueue_all e [] = []
enqueue_all e ((i, s) ∷ subs) = (i, enqueue e s) ∷ enqueue_all e subs

unfoldable pub publish : Event → Bus → Bus
unfolding stamp enqueue_all
publish e b = record b { subs = enqueue_all (stamp b.now e) b.subs }

-- Subscribe; the number stands for the new subscription's address.
unfoldable pub subscribe : ℕ → ℕ → Bus → Bus
unfolding new_subscription
subscribe i buffer b = record b {
  subs = (i, new_subscription (if ltb buffer 1 then 1 else buffer)) ∷ b.subs;
}

-- what the goroutine of Subscribe does when its context is done
unfoldable pub without : ℕ → List (ℕ × Subscription) → List (ℕ × Subscription)
without i [] = []
without i ((j, s) ∷ subs) = let rest = without i subs in if nat_eq j i then rest else (j, s) ∷ rest

unfoldable pub find_sub : ℕ → List (ℕ × Subscription) → Option Subscription
find_sub i [] = none
find_sub i ((j, s) ∷ subs) = if nat_eq j i then some s else find_sub i subs

-- The subscription leaves the bus and is closed.
unfoldable pub unsubscribe : ℕ → Bus → Option Subscription × Bus
unfolding without find_sub close
unsubscribe i b = (
  elim (find_sub i b.subs) [ none ↦ none | some s ↦ some (close s) ],
  record b { subs = without i b.subs },
)
