-- ===== src/Events/Delivery.antt =====
-- A subscriber receives the accepted events, in order, and the goroutine never sleeps on work.
use home_pc_agent.Common.{
  ℕ, suc, ◌-◌, ◌⊎◌, Bool-cases, ◌≤◌, ◌<◌, true, false, some, List, [], ◌∷◌, ◌++◌, ◌≡◌, ◌≢◌, refl,
  arith, length, length-append, append_assoc, sym, ◌∙◌, List-cases, inl, inr,
}
use home_pc_agent.Events.{
  Event, Pc, polling, waiting, sending, stopped, Subscription, Action, take, wake, stop, push, poll,
  signal, run_step,
}
use home_pc_agent.Events.Session.{
  Session, start, ◌⟶◌, Reach, in_hand, IsAwake, in_order, Inv, start-Inv, published-Inv,
  canceled-Inv, took-Inv, by_value, slept-Inv, loaded-Inv, published, signalled, signalled-Inv,
  canceled, ran, took, here, more,
}

polled-Inv : (t : Session) → t.sub.pc ≡ polling → Inv t → Inv (record t { sub = poll t.sub })
unfolding poll
polled-Inv t p v = elim (List-cases t.sub.queue) [
  | inl q ↦ by_value t _ (record t.sub { pc = waiting }) (ground arith) (slept-Inv t p q v)
  | inr (e, rest, q) ↦
      by_value t _ (record t.sub { queue = rest; pc = sending e }) (ground arith)
        (loaded-Inv t e rest p q v)
]

woken-Inv :
    (t : Session)
    → t.sub.pc ≡ waiting
    → Inv t
    → Inv (record t { sub = record t.sub { ready = false; pc = polling } })
woken-Inv t p v = record {
  complete = λ o. ground (arith, v.complete);
  prefix = (v.prefix.0, ground (arith, v.prefix.1));
  emptied = v.emptied;
  bounded = v.bounded;
  awake = tt;
  together = v.together;
}

stopped-Inv :
    (t : Session)
    → t.sub.done ≡ true
    → Inv t
    → Inv (record t { sub = record t.sub { pc = stopped } })
stopped-Inv t d v = record {
  complete = λ o. ground (arith, v.together);
  prefix = (in_hand t.sub.pc ++ v.prefix.0, v.prefix.1);
  emptied = v.emptied;
  bounded = v.bounded;
  awake = d;
  together = v.together;
}

pushed-Inv :
    (t : Session) (e : Event)
    → t.sub.pc ≡ sending e
    → length t.sub.events < t.sub.buffer
    → Inv t
    → Inv (record t { sub = record t.sub { events = t.sub.events ++ e ∷ []; pc = polling } })
pushed-Inv t e p room v = record {
  complete = λ o. simp append_assoc (ground (arith, v.complete));
  prefix = (v.prefix.0, simp append_assoc (ground (arith, v.prefix.1)));
  emptied = v.emptied;
  bounded = omega (arith, length-append t.sub.events (e ∷ []));
  awake = tt;
  together = v.together;
}

ran-Inv :
    (t : Session) (pc : Pc) (a : Action) (s : Subscription)
    → t.sub.pc ≡ pc
    → run_step pc a t.sub ≡ some s
    → Inv t
    → Inv (record t { sub = s })
unfolding run_step
ran-Inv t polling take s p h v = by_value t s (poll t.sub) (ground arith) (polled-Inv t p v)
ran-Inv t waiting wake s p h v =
    by_value t s (record t.sub { ready = false; pc = polling }) (ground arith) (woken-Inv t p v)
ran-Inv t waiting stop s p h v =
    by_value t s (record t.sub { pc = stopped }) (ground arith) (stopped-Inv t (ground arith) v)
ran-Inv t (sending e) stop s p h v =
    by_value t s (record t.sub { pc = stopped }) (ground arith) (stopped-Inv t (ground arith) v)
ran-Inv t (sending e) push s p h v =
    by_value t s (record t.sub { events = t.sub.events ++ e ∷ []; pc = polling }) (ground arith)
      (pushed-Inv t e p (ground arith) v)
ran-Inv t _ _ s p h v = cc

step-Inv : {t u : Session} → Inv t → t ⟶ u → Inv u
step-Inv v (published t e) = published-Inv t e v
step-Inv v (signalled t n h) = signalled-Inv t n v
step-Inv v (canceled t) = canceled-Inv t v
step-Inv v (ran t a s h) = ran-Inv t t.sub.pc a s refl h v
step-Inv v (took t e rest h) = took-Inv t e rest h v

Reach-Inv : {s t : Session} → Inv s → Reach s t → Inv t
Reach-Inv v here = v
Reach-Inv v (more r st) = step-Inv (Reach-Inv v r) st

-- Whatever the interleaving, what the receiver has got is an initial part of the accepted events,
-- in order; while the subscription is open nothing is lost: the received, buffered, held and
-- queued events are together, in this order, the accepted ones, and the channel never holds more
-- than its buffer.
pub delivery_in_order :
    (buffer : ℕ) {t : Session}
    → Reach (start buffer) t
    → ((rest : List Event) × (t.received ++ rest ≡ t.accepted))
      × (t.sub.closed ≡ false → in_order t ≡ t.accepted)
      × (length t.sub.events ≤ t.sub.buffer)
delivery_in_order buffer {t} r =
    let v = Reach-Inv (start-Inv buffer) r in
    ((t.sub.events ++ (in_hand t.sub.pc ++ v.prefix.0), v.prefix.1), v.complete, v.bounded)

-- the goroutine can take a step
abbrev pub CanStep : Pc → Subscription → Type 0
CanStep pc s = (a : Action) × (s' : Subscription) × (run_step pc a s ≡ some s')

step_ready :
    (pc : Pc) (s : Subscription) (pending : ℕ)
    → IsAwake pc s pending
    → s.done ≡ false
    → s.queue ≢ []
    → length s.events < s.buffer
    → CanStep pc s ⊎ ((n : ℕ) × (pending ≡ suc n) × CanStep pc (signal s))
unfolding run_step signal
step_ready polling s n w o q room = inl (take, poll s, refl)
step_ready waiting s n w o q room = elim (Bool-cases s.ready) [
  | inl r ↦ inl (wake, record s { ready = false; pc = polling }, ground (arith, r))
  | inr r ↦
      inr (n - 1, ground (arith, w q, r), (wake, record s { ready = false; pc = polling }, refl))
]
step_ready (sending e) s n w o q room =
    inl (push, record s { events = s.events ++ e ∷ []; pc = polling }, ground arith)
step_ready stopped s n w o q room = absurd (ground arith)

-- No lost wakeup: in every reachable state of an open subscription with queued events and room in
-- the channel, the goroutine can take a step; or a publisher stands between appending its event and
-- signalling, and the goroutine can take a step as soon as one has signalled.
pub delivery_progress :
    (buffer : ℕ) {t : Session}
    → Reach (start buffer) t
    → t.sub.closed ≡ false
    → t.sub.queue ≢ []
    → length t.sub.events < t.sub.buffer
    → CanStep t.sub.pc t.sub ⊎ ((n : ℕ) × (t.pending ≡ suc n) × CanStep t.sub.pc (signal t.sub))
delivery_progress buffer {t} r o q room =
    let v = Reach-Inv (start-Inv buffer) r in
    step_ready t.sub.pc t.sub t.pending v.awake (sym v.together ∙ o) q room
