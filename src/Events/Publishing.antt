-- ===== src/Events/Publishing.antt =====
-- What a publication does to the subscriptions of the bus.
use home_pc_agent.Common.{ℕ, none, List, [], ◌∷◌, ◌++◌, ◌≡◌, refl, arith, if◌then◌else◌, nat_eq}
use mathlib.Core.Option
use home_pc_agent.Events.{
  Event, Subscription, Bus, enqueue, enqueue_all, publish, stamp, find_sub, unsubscribe, without,
  close,
}

pub find_sub-enqueue_all :
    (i : ℕ) (e : Event) (subs : List (ℕ × Subscription))
    → find_sub i (enqueue_all e subs) ≡ Option.map (enqueue e) (find_sub i subs)
unfolding find_sub enqueue_all
find_sub-enqueue_all i e [] = refl
find_sub-enqueue_all i e ((j, s) ∷ subs) = ground (arith, find_sub-enqueue_all i e subs)

-- Publish reaches every subscription with the stamped event, and none is added or lost.
pub find_sub-publish :
    (i : ℕ) (e : Event) (b : Bus)
    → find_sub i (publish e b).subs ≡ Option.map (enqueue (stamp b.now e)) (find_sub i b.subs)
unfolding publish
find_sub-publish i e b = find_sub-enqueue_all i (stamp b.now e) b.subs

-- A sequence of publications.
unfoldable pub publish_all : List Event → Bus → Bus
publish_all [] b = b
publish_all (e ∷ es) b = publish_all es (publish e b)

pub publish_all-append :
    (es fs : List Event) (b : Bus) → publish_all (es ++ fs) b ≡ publish_all fs (publish_all es b)
unfolding publish_all
publish_all-append [] fs b = refl
publish_all-append (e ∷ es) fs b = publish_all-append es fs (publish e b)

find_sub-without :
    (i j : ℕ) (subs : List (ℕ × Subscription))
    → find_sub j (without i subs) ≡ (if nat_eq i j then none else find_sub j subs)
unfolding find_sub without
find_sub-without i j [] = ground arith
find_sub-without i j ((k, s) ∷ subs) = ground (arith, find_sub-without i j subs)

-- After its context is done a subscription is off the bus, closed and emptied; the others stay.
pub unsubscribe_lem :
    (i j : ℕ) (b : Bus)
    → ((unsubscribe i b).0 ≡ Option.map close (find_sub i b.subs))
      × (find_sub j (unsubscribe i b).1.subs ≡ (if nat_eq i j then none else find_sub j b.subs))
unfolding unsubscribe
unsubscribe_lem i j b = (ground arith, find_sub-without i j b.subs)
