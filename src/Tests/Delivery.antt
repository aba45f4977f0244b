-- ===== src/Tests/Delivery.antt =====
-- Events delivered through a subscription with a channel of one place.
use home_pc_agent.Common.{ℕ, suc, ◌⊎◌, false, List, [], ◌∷◌, ◌≡◌, ◌≤◌, ◌++◌, refl, arith, length}
use home_pc_agent.Events.{Event, append, signal, new_subscription}
use home_pc_agent.Events.Session.{Session, Reach, here, more, start, published, signalled, in_order}
use home_pc_agent.Events.Delivery.{CanStep, delivery_in_order, delivery_progress}
use home_pc_agent.Tests.Data.{on_event, off_event}

-- two events appended, the first of them signalled
abbrev after_two : Session
unfolding append signal new_subscription
after_two = record {
  sub = append off_event (signal (append on_event (new_subscription 1)));
  accepted = on_event ∷ off_event ∷ [];
  received = [];
  pending = 1;
}

Reach-two : Reach (start 1) after_two
unfolding append signal new_subscription
Reach-two =
    more (more (more here (published (start 1) on_event)) (signalled _ 0 refl))
      (published _ off_event)

delivery_in_order_example :
    ((rest : List Event) × (after_two.received ++ rest ≡ after_two.accepted))
    × (after_two.sub.closed ≡ false → in_order after_two ≡ after_two.accepted)
    × (length after_two.sub.events ≤ after_two.sub.buffer)
delivery_in_order_example = delivery_in_order 1 Reach-two

delivery_progress_example :
    CanStep after_two.sub.pc after_two.sub
    ⊎ ((n : ℕ) × (after_two.pending ≡ suc n) × CanStep after_two.sub.pc (signal after_two.sub))
unfolding append signal new_subscription
delivery_progress_example =
    delivery_progress 1 Reach-two refl (λ h. absurd (ground arith)) (omega arith)
