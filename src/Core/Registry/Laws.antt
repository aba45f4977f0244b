-- ===== src/Core/Registry/Laws.antt =====
-- The registry refines a partial map from ids to validated entities, and publishes one event for
-- each change.
use home_pc_agent.Common.{
  Option, none, some, List, [], ◌∷◌, Text, ◌==◌, ==_iff, lookup, insert, delete, lookup-insert,
  lookup-delete, Err, ◌≡◌, ◌≢◌, inl, inr, refl, arith, if◌then◌else◌, Option-cases,
}
use home_pc_agent.Entity.{Entity, validate}
use home_pc_agent.Events.{Event, entity_added, entity_updated, entity_removed, publish}
use home_pc_agent.Core.Registry.{
  Registry, entity_event, register, add_new, update, replace, remove, drop_found, get,
}

-- The abstract registry: what `Get` returns for each id.
abbrev pub View : Type 0
View = Text → Option Entity

abbrev pub view : Registry → View
view r id = get id r

abbrev pub assign : Text → Option Entity → View → View
assign k v m id = if k == id then v else m id

-- An operation succeeded: its view and its bus are the old ones with one entry assigned and one
-- event published.
pub record Changed (r : Registry) (id : Text) (v : Option Entity) (e : Event) (r' : Registry)
    : Type 0 where
  pub at : (k : Text) → view r' k ≡ assign id v (view r) k
  pub bus : r'.bus ≡ publish e r.bus

pub data Operation : Type 0 where
  registers updates : Entity → Operation
  removes : Text → Operation

abbrev pub apply : Operation → Registry → Registry × Option Err
apply (registers e) r = register e r
apply (updates e) r = update e r
apply (removes id) r = remove id r

-- the change that the abstract registry allows: the id, its new entry and the event
abbrev pub change_if_valid :
    Option Err → Text × Option Entity × Event → Option (Text × Option Entity × Event)
change_if_valid none c = some c
change_if_valid (some _) c = none

abbrev pub when_absent :
    Option Entity → Option (Text × Option Entity × Event) → Option (Text × Option Entity × Event)
when_absent none c = c
when_absent (some _) c = none

abbrev pub when_present :
    Option Entity
    → (Entity → Option (Text × Option Entity × Event))
    → Option (Text × Option Entity × Event)
when_present none c = none
when_present (some e) c = c e

abbrev pub allowed : Operation → View → Option (Text × Option Entity × Event)
allowed (registers e) m =
    when_absent (m e.id)
      (change_if_valid (validate e) (e.id, some e, entity_event entity_added e.id e))
allowed (updates e) m =
    when_present (m e.id)
      (λ _. change_if_valid (validate e) (e.id, some e, entity_event entity_updated e.id e))
allowed (removes id) m =
    when_present (m id) (λ e. some (id, none, entity_event entity_removed id e))

abbrev pub Outcome :
    Option (Text × Option Entity × Event) → Registry → Registry × Option Err → Type 0
Outcome none r result = (result.0 ≡ r) × (result.1 ≢ none)
Outcome (some (id, v, e)) r result = Changed r id v e result.0 × (result.1 ≡ none)

assigned :
    (id : Text) (e : Entity) (r : Registry) (ev : Event)
    → Changed r id
        (some e)
        ev
        (record { entities = insert id e r.entities; bus = publish ev r.bus })
unfolding get
assigned id e r ev = record { at = λ k. lookup-insert id k e r.entities; bus = refl }

unassigned :
    (id : Text) (r : Registry) (ev : Event)
    → Changed r id none ev (record { entities = delete id r.entities; bus = publish ev r.bus })
unfolding get
unassigned id r ev = record { at = λ k. lookup-delete id k r.entities; bus = refl }

register_cases :
    (v : Option Err) (o : Option Entity) (e : Entity) (r : Registry)
    → Outcome
        (when_absent o (change_if_valid v (e.id, some e, entity_event entity_added e.id e)))
        r
        (elim v [ some error ↦ (r, some error) | none ↦ add_new o e r ])
unfolding add_new
register_cases none none e r = (assigned e.id e r (entity_event entity_added e.id e), refl)
register_cases none (some _) e r = (refl, λ h. cc)
register_cases (some _) none e r = (refl, λ h. cc)
register_cases (some _) (some _) e r = (refl, λ h. cc)

update_cases :
    (v : Option Err) (o : Option Entity) (e : Entity) (r : Registry)
    → Outcome
        (when_present o (λ _. change_if_valid v (e.id, some e, entity_event entity_updated e.id e)))
        r
        (elim v [ some error ↦ (r, some error) | none ↦ replace o e r ])
unfolding replace
update_cases none (some _) e r = (assigned e.id e r (entity_event entity_updated e.id e), refl)
update_cases none none e r = (refl, λ h. cc)
update_cases (some _) none e r = (refl, λ h. cc)
update_cases (some _) (some _) e r = (refl, λ h. cc)

remove_cases :
    (o : Option Entity) (id : Text) (r : Registry)
    → Outcome
        (when_present o (λ e. some (id, none, entity_event entity_removed id e)))
        r
        (drop_found o id r)
unfolding drop_found
remove_cases none id r = (refl, λ h. cc)
remove_cases (some e) id r = (unassigned id r (entity_event entity_removed id e), refl)

-- Register, Update and Remove implement a partial map of valid entities: the call succeeds exactly
-- when the abstract map allows the change (a valid entity under a new id, a valid entity under a
-- known id, a known id); it then assigns that one entry and publishes that one event, and a call
-- that fails leaves the registry and its bus as they were.
pub apply-Outcome : (op : Operation) (r : Registry) → Outcome (allowed op (view r)) r (apply op r)
unfolding register update remove get
apply-Outcome (registers e) r = register_cases (validate e) (lookup e.id r.entities) e r
apply-Outcome (updates e) r = update_cases (validate e) (lookup e.id r.entities) e r
apply-Outcome (removes id) r = remove_cases (lookup id r.entities) id r

-- Every stored entity is valid and stands under its own id.
abbrev pub IsSound : View → Type 0
IsSound m = (k : Text) (e : Entity) → m k ≡ some e → (validate e ≡ none) × (e.id ≡ k)

unfoldable pub apply_all : List Operation → Registry → Registry
apply_all [] r = r
apply_all (op ∷ ops) r = apply_all ops (apply op r).0

register-IsSound : (e : Entity) (r : Registry) → IsSound (view r) → IsSound (view (register e r).0)
unfolding register add_new get
register-IsSound e r h = elim (Option-cases (validate e)) [
  | inl v ↦ λ k x p. ground (arith, h k x, ==_iff e.id k, lookup-insert e.id k e r.entities)
  | inr (y, v) ↦ λ k x p. ground (arith, h k x)
]

update-IsSound : (e : Entity) (r : Registry) → IsSound (view r) → IsSound (view (update e r).0)
unfolding update replace get
update-IsSound e r h = elim (Option-cases (validate e)) [
  | inl v ↦ λ k x p. ground (arith, h k x, ==_iff e.id k, lookup-insert e.id k e r.entities)
  | inr (y, v) ↦ λ k x p. ground (arith, h k x)
]

remove-IsSound : (id : Text) (r : Registry) → IsSound (view r) → IsSound (view (remove id r).0)
unfolding remove drop_found get
remove-IsSound id r h k x p = ground (arith, h k x, lookup-delete id k r.entities)

pub apply-IsSound :
    (op : Operation) (r : Registry) → IsSound (view r) → IsSound (view (apply op r).0)
apply-IsSound (registers e) r h = register-IsSound e r h
apply-IsSound (updates e) r h = update-IsSound e r h
apply-IsSound (removes id) r h = remove-IsSound id r h

-- Whatever operations are applied, successful or not, a registry that starts sound holds only
-- valid entities, each under its own id.
pub apply_all-IsSound :
    (ops : List Operation) (r : Registry) → IsSound (view r) → IsSound (view (apply_all ops r))
unfolding apply_all
apply_all-IsSound [] r h = h
apply_all-IsSound (op ∷ ops) r h = apply_all-IsSound ops (apply op r).0 (apply-IsSound op r h)
