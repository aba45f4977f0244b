-- ===== src/Core/Registry/Observation.antt =====
-- A listener that subscribes first and lists the registry later ends with the registry's contents.
use home_pc_agent.Common.{
  Option, none, some, List, [], ◌∷◌, ◌++◌, Text, ◌==◌, ◌≡◌, refl, sym, ap, ◌∙◌, arith,
  if◌then◌else◌, or_else, Err,
}
use home_pc_agent.Entity.{Entity, entity_or_zero, validate}
use home_pc_agent.Events.{
  Event, EventType, entity_added, entity_updated, entity_removed, state_changed,
  availability_changed,
}
use home_pc_agent.Events.Publishing.{publish_all, publish_all-append}
use home_pc_agent.Core.Registry.{Registry, entity_event}
use home_pc_agent.Core.Registry.Laws.{
  View, view, assign, Operation, registers, updates, removes, apply, apply_all, allowed,
  change_if_valid, when_absent, when_present, Outcome, apply-Outcome, IsSound, apply-IsSound,
  apply_all-IsSound,
}

-- What an event says of the registry's contents, to one who knew `m`.
abbrev pub learn : EventType → Text → Option Entity → View → View
learn entity_added id e m = assign (entity_or_zero e).id (some (entity_or_zero e)) m
learn entity_updated id e m = assign (entity_or_zero e).id (some (entity_or_zero e)) m
learn entity_removed id e m = assign (entity_or_zero e).id none m
learn _ _ _ m = m

abbrev pub observe : Event → View → View
observe ev m = learn ev.event_type ev.entity_id ev.entity m

-- the event of one operation, if it succeeds
abbrev pub published : Option (Text × Option Entity × Event) → List Event
published none = []
published (some (_, _, ev)) = ev ∷ []

unfoldable pub events_of : List Operation → Registry → List Event
events_of [] r = []
events_of (op ∷ ops) r = published (allowed op (view r)) ++ events_of ops (apply op r).0

unfoldable pub observe_all : List Event → View → View
observe_all [] m = m
observe_all (ev ∷ evs) m = observe_all evs (observe ev m)

observe-cong :
    (ev : Event) (m n : View)
    → ((k : Text) → m k ≡ n k)
    → (k : Text) → observe ev m k ≡ observe ev n k
observe-cong ev m n h k = ground (arith, h k)

pub observe_all-cong :
    (evs : List Event) (m n : View)
    → ((k : Text) → m k ≡ n k)
    → (k : Text) → observe_all evs m k ≡ observe_all evs n k
unfolding observe_all
observe_all-cong [] m n h k = h k
observe_all-cong (ev ∷ evs) m n h k =
    observe_all-cong evs (observe ev m) (observe ev n) (observe-cong ev m n h) k

observe_all-append :
    (es fs : List Event) (m : View) → observe_all (es ++ fs) m ≡ observe_all fs (observe_all es m)
unfolding observe_all
observe_all-append [] fs m = refl
observe_all-append (e ∷ es) fs m = observe_all-append es fs (observe e m)

-- the last word of the events on an id
word : EventType → Text → Option Entity → Text → Option (Option Entity)
word entity_added id e k =
    if (entity_or_zero e).id == k then some (some (entity_or_zero e)) else none
word entity_updated id e k =
    if (entity_or_zero e).id == k then some (some (entity_or_zero e)) else none
word entity_removed id e k = if (entity_or_zero e).id == k then some none else none
word _ _ _ k = none

last_word : List Event → Text → Option (Option Entity)
last_word [] k = none
last_word (ev ∷ evs) k = or_else (last_word evs k) (word ev.event_type ev.entity_id ev.entity k)

abbrev patch : Option (Option Entity) → Option Entity → Option Entity
patch none v = v
patch (some w) v = w

observe-word :
    (type : EventType) (id : Text) (e : Option Entity) (m : View) (k : Text)
    → learn type id e m k ≡ patch (word type id e k) (m k)
unfolding word
observe-word entity_added id e m k = ground arith
observe-word entity_updated id e m k = ground arith
observe-word entity_removed id e m k = ground arith
observe-word state_changed id e m k = refl
observe-word availability_changed id e m k = refl

observe_all-last_word :
    (evs : List Event) (m : View) (k : Text) → observe_all evs m k ≡ patch (last_word evs k) (m k)
unfolding observe_all last_word
observe_all-last_word [] m k = refl
observe_all-last_word (ev ∷ evs) m k = ground (
  arith,
  observe_all-last_word evs (observe ev m) k,
  observe-word ev.event_type ev.entity_id ev.entity m k,
)

-- Hearing once more what has already been taken into account changes nothing.
hear_again :
    (evs : List Event) (m : View) (k : Text)
    → observe_all evs (observe_all evs m) k ≡ observe_all evs m k
hear_again evs m k =
    ground (arith, observe_all-last_word evs (observe_all evs m) k, observe_all-last_word evs m k)

-- The event of a change tells that change.
abbrev Says : Option (Text × Option Entity × Event) → Type 0
Says none = Unit
Says (some (id, v, ev)) = (m : View) (k : Text) → observe ev m k ≡ assign id v m k

Says-if_valid :
    (v : Option Err) (c : Text × Option Entity × Event) → Says (some c) → Says (change_if_valid v c)
Says-if_valid none c h = h
Says-if_valid (some _) c h = tt

-- `m e.id` for the entity `e` that a Remove finds
removed-Says :
    (id : Text) (m : View) (o : Option Entity)
    → IsSound m
    → m id ≡ o
    → Says (when_present o (λ e. some (id, none, entity_event entity_removed id e)))
unfolding entity_event
removed-Says id m none s p = tt
removed-Says id m (some e) s p = λ n k. rw (s id e p).1

allowed-Says : (op : Operation) (m : View) → IsSound m → Says (allowed op m)
unfolding entity_event
allowed-Says (registers e) m s =
    elim (m e.id)
      as (λ o. Says (
        when_absent o
          (change_if_valid (validate e) (e.id, some e, entity_event entity_added e.id e)))) [
            | none ↦ Says-if_valid (validate e) _ (λ n k. refl)
            | some _ ↦ tt
          ]
allowed-Says (updates e) m s =
    elim (m e.id)
      as (λ o. Says (
        when_present o
          (λ _. change_if_valid (validate e) (e.id, some e, entity_event entity_updated e.id e)))) [
            | none ↦ tt
            | some _ ↦ Says-if_valid (validate e) _ (λ n k. refl)
          ]
allowed-Says (removes id) m s = removed-Says id m (m id) s refl

outcome_observed :
    (c : Option (Text × Option Entity × Event)) (r : Registry) (res : Registry × Option Err)
    → Says c
    → Outcome c r res
    → ((k : Text) → view res.0 k ≡ observe_all (published c) (view r) k)
      × (res.0.bus ≡ publish_all (published c) r.bus)
unfolding observe_all publish_all
outcome_observed none r res t o =
    ((λ k. ap (λ (x : Registry). view x k) o.0), ap (λ (x : Registry). x.bus) o.0)
outcome_observed (some (id, v, ev)) r res t o = ((λ k. o.0.at k ∙ sym (t (view r) k)), o.0.bus)

events_step :
    (op : Operation) (ops : List Operation) (r : Registry)
    → IsSound (view r)
    → let s = (apply op r).0 in
      ((k : Text) → view (apply_all ops s) k ≡ observe_all (events_of ops s) (view s) k)
        × ((apply_all ops s).bus ≡ publish_all (events_of ops s) s.bus)
      → ((k : Text)
          → view (apply_all ops s) k
            ≡ observe_all (published (allowed op (view r)) ++ events_of ops s) (view r) k)
        × ((apply_all ops s).bus
            ≡ publish_all (published (allowed op (view r)) ++ events_of ops s) r.bus)
events_step op ops r sound ih =
    let s = (apply op r).0 in
    let first = published (allowed op (view r)) in
    let here =
      outcome_observed (allowed op (view r)) r (apply op r) (allowed-Says op (view r) sound)
        (apply-Outcome op r) in
    (
      (λ k.
          ih.0 k
          ∙ observe_all-cong (events_of ops s) (view s) (observe_all first (view r)) here.0 k
          ∙ ap (λ (m : View). m k) (sym (observe_all-append first (events_of ops s) (view r)))),
      (ih.1
          ∙ ap (publish_all (events_of ops s)) here.1
          ∙ sym (publish_all-append first (events_of ops s) r.bus)),
    )

-- From a sound registry, the events published by any operations tell all that they did: they alone reach the
-- bus, and whoever replays them on the old contents has the new ones.
pub events_of_complete :
    (ops : List Operation) (r : Registry)
    → IsSound (view r)
    → ((k : Text) → view (apply_all ops r) k ≡ observe_all (events_of ops r) (view r) k)
      × ((apply_all ops r).bus ≡ publish_all (events_of ops r) r.bus)
unfolding apply_all events_of
events_of_complete [] r sound = (unfold observe_all in (λ k. refl), unfold publish_all in refl)
events_of_complete (op ∷ ops) r sound =
    events_step op ops r sound (events_of_complete ops (apply op r).0 (apply-IsSound op r sound))

-- On a sound registry, a listener that has subscribed before `before`, lists the registry after `before`, and then hears
-- every event since its subscription, `before` included, ends with the registry's contents.
pub snapshot_catches_up :
    (before after : List Operation) (r : Registry) (k : Text)
    → IsSound (view r)
    → let listed = apply_all before r in
      observe_all (events_of before r ++ events_of after listed) (view listed) k
      ≡ view (apply_all after listed) k
snapshot_catches_up before after r k sound =
    let listed = apply_all before r in
    let es = events_of before r in
    ap (λ (m : View). m k) (observe_all-append es (events_of after listed) (view listed))
    ∙ observe_all-cong (events_of after listed) (observe_all es (view listed)) (view listed)
        (λ j.
          observe_all-cong es (view listed) (observe_all es (view r))
            (events_of_complete before r sound).0 j
          ∙ hear_again es (view r) j
          ∙ sym ((events_of_complete before r sound).0 j))
        k
    ∙ sym ((events_of_complete after listed (apply_all-IsSound before r sound)).0 k)
