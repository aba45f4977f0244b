-- ===== src/Mqtt/Commands/Sublists.antt =====
-- Lists of commands with some left out, and the commands for one entity.
use home_pc_agent.Common.{
  false, List, [], ◌∷◌, ◌++◌, Text, ◌==◌, ==_refl, ◌≡◌, refl, arith, if◌then◌else◌, Bool-cases, inl,
  inr,
}
use home_pc_agent.Core.Router.{Command}

-- The first list is the second with some elements left out.
infix 4 ◌⊑◌
pub data ◌⊑◌ : List Command → List Command → Type 0 where
  done : [] ⊑ []
  omit : {xs ys : List Command} {y : Command} → xs ⊑ ys → xs ⊑ y ∷ ys
  keep : {xs ys : List Command} {x : Command} → xs ⊑ ys → x ∷ xs ⊑ x ∷ ys

pub ⊑_refl : (xs : List Command) → xs ⊑ xs
⊑_refl [] = done
⊑_refl (x ∷ xs) = keep (⊑_refl xs)

pub ⊑_trans : {xs ys zs : List Command} → xs ⊑ ys → ys ⊑ zs → xs ⊑ zs
⊑_trans h (omit k) = omit (⊑_trans h k)
⊑_trans (omit h) (keep k) = omit (⊑_trans h k)
⊑_trans (keep h) (keep k) = keep (⊑_trans h k)
⊑_trans done done = done

pub ⊑_empty : (ys : List Command) → [] ⊑ ys
⊑_empty [] = done
⊑_empty (y ∷ ys) = omit (⊑_empty ys)

pub ⊑_append : {xs ys us vs : List Command} → xs ⊑ ys → us ⊑ vs → xs ++ us ⊑ ys ++ vs
⊑_append done k = k
⊑_append (omit h) k = omit (⊑_append h k)
⊑_append (keep h) k = keep (⊑_append h k)

-- the commands for one entity
unfoldable pub for_entity : Text → List Command → List Command
for_entity id [] = []
for_entity id (c ∷ cs) = let rest = for_entity id cs in if c.entity_id == id then c ∷ rest else rest

pub for_entity-append :
    (id : Text) (xs ys : List Command)
    → for_entity id (xs ++ ys) ≡ for_entity id xs ++ for_entity id ys
unfolding for_entity
for_entity-append id [] ys = refl
for_entity-append id (x ∷ xs) ys = ground (arith, for_entity-append id xs ys)

pub for_entity-⊑ :
    (id : Text) {xs ys : List Command} → xs ⊑ ys → for_entity id xs ⊑ for_entity id ys
unfolding for_entity
for_entity-⊑ id done = done
for_entity-⊑ id (omit {y = y} h) = elim (Bool-cases (y.entity_id == id)) [
  | inl e ↦ rw (e) (omit (for_entity-⊑ id h))
  | inr e ↦ rw (e) (for_entity-⊑ id h)
]
for_entity-⊑ id (keep {x = x} h) = elim (Bool-cases (x.entity_id == id)) [
  | inl e ↦ rw (e) (keep (for_entity-⊑ id h))
  | inr e ↦ rw (e) (for_entity-⊑ id h)
]

pub for_entity-own :
    (c : Command) (cs : List Command)
    → for_entity c.entity_id (c ∷ cs) ≡ c ∷ for_entity c.entity_id cs
unfolding for_entity
for_entity-own c cs = ground (arith, ==_refl c.entity_id)

pub for_entity-other :
    (id : Text) (c : Command) (cs : List Command)
    → (c.entity_id == id) ≡ false
    → for_entity id (c ∷ cs) ≡ for_entity id cs
unfolding for_entity
for_entity-other id c cs h = ground arith
