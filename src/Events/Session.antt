-- ===== src/Events/Session.antt =====
-- A subscription as its publishers, its goroutine and its receiver see it, and an invariant that
-- their steps keep.
use home_pc_agent.Common.{
  ℕ, suc, ◌≤◌, ◌||◌, ltb, true, false, some, List, [], ◌∷◌, ◌++◌, ◌≡◌, ◌≢◌, refl, arith,
  if◌then◌else◌, length, append_assoc, sym, subst, Bool-cases, inl, inr, ap,
}
use home_pc_agent.Events.{
  Event, Pc, polling, waiting, sending, stopped, Subscription, Action, new_subscription, append,
  signal, close, run_step,
}

-- A subscription with what was accepted into its queue, what the receiver has taken, and how many
-- publishers have appended an event and not signalled yet.
pub record Session : Type 0 where
  pub sub : Subscription
  pub accepted : List Event
  pub received : List Event
  pub pending : ℕ

abbrev pub start : ℕ → Session
unfolding new_subscription
start buffer = record { sub = new_subscription buffer; accepted = []; received = []; pending = 0 }

-- One atomic step: of a publisher, of the closing goroutine, of `run`, or of the receiver.
infix 40 ◌⟶◌
pub data ◌⟶◌ : Session → Session → Type 0 where
  published :
      (t : Session) (e : Event)
      → t ⟶ record t {
        sub = append e t.sub;
        accepted = if t.sub.closed then t.accepted else t.accepted ++ e ∷ [];
        pending = if t.sub.closed then t.pending else suc t.pending;
      }
  signalled :
      (t : Session) (n : ℕ) → t.pending ≡ suc n → t ⟶ record t { sub = signal t.sub; pending = n }
  canceled : (t : Session) → t ⟶ record t { sub = close t.sub }
  ran :
      (t : Session) (a : Action) (s : Subscription)
      → run_step t.sub.pc a t.sub ≡ some s
      → t ⟶ record t { sub = s }
  took :
      (t : Session) (e : Event) (rest : List Event)
      → t.sub.events ≡ e ∷ rest
      → t ⟶ record t { sub = record t.sub { events = rest }; received = t.received ++ e ∷ [] }

pub data Reach (s : Session) : Session → Type 0 where
  here : Reach s s
  more : {t u : Session} → Reach s t → t ⟶ u → Reach s u

-- the event that `run` holds between the queue and the channel
abbrev pub in_hand : Pc → List Event
in_hand polling = []
in_hand waiting = []
in_hand (sending e) = e ∷ []
in_hand stopped = []

-- a signal is there for a waiting goroutine with work, or a publisher is about to give it
abbrev pub IsAwake : Pc → Subscription → ℕ → Type 0
IsAwake waiting s pending = s.queue ≢ [] → (s.ready || ltb 0 pending) ≡ true
IsAwake stopped s pending = s.done ≡ true
IsAwake _ s pending = Unit

-- Received, buffered, held and queued events, in this order.
abbrev pub in_order : Session → List Event
in_order t = t.received ++ (t.sub.events ++ (in_hand t.sub.pc ++ t.sub.queue))

pub record Inv (t : Session) : Type 0 where
  pub complete : t.sub.closed ≡ false → in_order t ≡ t.accepted
  pub prefix :
      (rest : List Event) × (t.received ++ (t.sub.events ++ (in_hand t.sub.pc ++ rest))
        ≡ t.accepted)
  pub emptied : t.sub.closed ≡ true → t.sub.queue ≡ []
  pub bounded : length t.sub.events ≤ t.sub.buffer
  pub awake : IsAwake t.sub.pc t.sub t.pending
  pub together : t.sub.closed ≡ t.sub.done

pub start-Inv : (buffer : ℕ) → Inv (start buffer)
unfolding start
start-Inv buffer = record {
  complete = λ _. refl;
  prefix = ([], refl);
  emptied = λ h. refl;
  bounded = omega arith;
  awake = tt;
  together = refl;
}

-- appending at the far end of a queue
at_end :
    (r b h q : List Event) (e : Event)
    → r ++ (b ++ (h ++ (q ++ e ∷ []))) ≡ (r ++ (b ++ (h ++ q))) ++ e ∷ []
at_end r b h q e = simp append_assoc

pc-append : (s : Subscription) (e : Event) → (append e s).pc ≡ s.pc
unfolding append
pc-append s e = ground arith

pc-close : (s : Subscription) → (close s).pc ≡ s.pc
unfolding close
pc-close s = ground arith

published-IsAwake :
    (pc : Pc) (s : Subscription) (e : Event) (n : ℕ)
    → IsAwake pc s n
    → IsAwake pc (append e s) (if s.closed then n else suc n)
unfolding append
published-IsAwake polling s e n h = tt
published-IsAwake waiting s e n h = λ q. ground (arith, h)
published-IsAwake (sending x) s e n h = tt
published-IsAwake stopped s e n h = ground arith

signalled-IsAwake :
    (pc : Pc) (s : Subscription) (n m : ℕ) → IsAwake pc s n → IsAwake pc (signal s) m
unfolding signal
signalled-IsAwake polling s n m h = tt
signalled-IsAwake waiting s n m h = λ q. refl
signalled-IsAwake (sending x) s n m h = tt
signalled-IsAwake stopped s n m h = h

canceled-IsAwake : (pc : Pc) (s : Subscription) (n : ℕ) → IsAwake pc s n → IsAwake pc (close s) n
unfolding close
canceled-IsAwake polling s n h = tt
canceled-IsAwake waiting s n h = λ q. ground (arith, h)
canceled-IsAwake (sending x) s n h = tt
canceled-IsAwake stopped s n h = ground arith

took-IsAwake :
    (pc : Pc) (s : Subscription) (rest : List Event) (n : ℕ)
    → IsAwake pc s n
    → IsAwake pc (record s { events = rest }) n
took-IsAwake polling s rest n h = tt
took-IsAwake waiting s rest n h = h
took-IsAwake (sending x) s rest n h = tt
took-IsAwake stopped s rest n h = h

pub signalled-Inv :
    (t : Session) (n : ℕ) → Inv t → Inv (record t { sub = signal t.sub; pending = n })
unfolding signal
signalled-Inv t n v = record {
  complete = v.complete;
  prefix = v.prefix;
  emptied = v.emptied;
  bounded = v.bounded;
  awake = signalled-IsAwake t.sub.pc t.sub t.pending n v.awake;
  together = v.together;
}

pub published-Inv :
    (t : Session) (e : Event)
    → Inv t
    → Inv (record t {
      sub = append e t.sub;
      accepted = if t.sub.closed then t.accepted else t.accepted ++ e ∷ [];
      pending = if t.sub.closed then t.pending else suc t.pending;
    })
unfolding append
published-Inv t e v = record {
  complete = λ h.
      ground (arith, v.complete, at_end t.received t.sub.events (in_hand t.sub.pc) t.sub.queue e);
  prefix = elim (Bool-cases t.sub.closed) [
    | inl c ↦ (v.prefix.0, ground (arith, v.prefix.1))
    | inr o ↦ (
      t.sub.queue ++ e ∷ [],
      ground (arith, v.complete, at_end t.received t.sub.events (in_hand t.sub.pc) t.sub.queue e),
    )
  ];
  emptied = λ h. ground (arith, v.emptied);
  bounded = ground (arith, v.bounded);
  awake =
      subst (λ p. IsAwake p (append e t.sub) (if t.sub.closed then t.pending else suc t.pending))
        (sym (pc-append t.sub e)) (published-IsAwake t.sub.pc t.sub e t.pending v.awake);
  together = ground (arith, v.together);
}

pub canceled-Inv : (t : Session) → Inv t → Inv (record t { sub = close t.sub })
unfolding close
canceled-Inv t v = record {
  complete = λ h. ground (arith, v.complete, v.together);
  prefix = (v.prefix.0, ground (arith, v.prefix.1));
  emptied = λ h. ground (arith, v.emptied, v.together);
  bounded = ground (arith, v.bounded);
  awake =
      subst (λ p. IsAwake p (close t.sub) t.pending) (sym (pc-close t.sub))
        (canceled-IsAwake t.sub.pc t.sub t.pending v.awake);
  together = ground (arith, v.together);
}

-- Which step `run` took, and what it left.
pub took-Inv :
    (t : Session) (e : Event) (rest : List Event)
    → t.sub.events ≡ e ∷ rest
    → Inv t
    → Inv (record t { sub = record t.sub { events = rest }; received = t.received ++ e ∷ [] })
took-Inv t e rest h v = record {
  complete = λ o. simp append_assoc (ground (arith, v.complete, h));
  prefix = (v.prefix.0, simp append_assoc (ground (arith, v.prefix.1, h)));
  emptied = v.emptied;
  bounded = ground (arith, v.bounded, ap length h);
  awake = took-IsAwake t.sub.pc t.sub rest t.pending v.awake;
  together = v.together;
}

pub by_value :
    (t : Session) (s s' : Subscription)
    → s ≡ s'
    → Inv (record t { sub = s' })
    → Inv (record t { sub = s })
by_value t s s' e v = subst (λ x. Inv (record t { sub = x })) (sym e) v

pub slept-Inv :
    (t : Session)
    → t.sub.pc ≡ polling
    → t.sub.queue ≡ []
    → Inv t
    → Inv (record t { sub = record t.sub { pc = waiting } })
slept-Inv t p q v = record {
  complete = λ o. ground (arith, v.complete);
  prefix = (v.prefix.0, ground (arith, v.prefix.1));
  emptied = v.emptied;
  bounded = v.bounded;
  awake = λ h. absurd (h q);
  together = v.together;
}

pub loaded-Inv :
    (t : Session) (e : Event) (rest : List Event)
    → t.sub.pc ≡ polling
    → t.sub.queue ≡ e ∷ rest
    → Inv t
    → Inv (record t { sub = record t.sub { queue = rest; pc = sending e } })
loaded-Inv t e rest p q v = record {
  complete = λ o. ground (arith, v.complete);
  prefix = (rest, ground (arith, v.complete, v.emptied));
  emptied = λ h. ground (arith, v.emptied);
  bounded = v.bounded;
  awake = tt;
  together = v.together;
}
