-- ===== src/Tests/Registry.antt =====
-- Operations on the registry, and the events that tell of them.
use home_pc_agent.Common.{Text, ◌≡◌}
use home_pc_agent.Core.Registry.Observation.{observe_all, events_of, events_of_complete}
use home_pc_agent.Events.Publishing.{publish_all}
use home_pc_agent.Core.Registry.Laws.{view, apply_all}
use home_pc_agent.Common.{List, [], ◌∷◌, codes, lookup, arith}
use home_pc_agent.Core.Registry.{get}
use home_pc_agent.Core.Registry.Laws.{
  view, Operation, registers, updates, removes, apply, allowed, Outcome, IsSound, apply-Outcome,
}
use home_pc_agent.Tests.Data.{lamp, lamp_again, mode, empty_registry}

abbrev pub setting_up : List Operation
setting_up = registers lamp ∷ registers lamp_again ∷ registers mode ∷ []

abbrev pub changing : List Operation
changing = updates lamp_again ∷ removes (codes "b.mode") ∷ []

pub empty-IsSound : IsSound (view empty_registry)
unfolding get lookup
empty-IsSound k e h = absurd (ground arith)

apply-Outcome_example :
    Outcome
      (allowed (registers lamp) (view empty_registry))
      empty_registry
      (apply (registers lamp) empty_registry)
apply-Outcome_example = apply-Outcome (registers lamp) empty_registry

events_of_complete_example :
    ((k : Text)
      → view (apply_all setting_up empty_registry) k
        ≡ observe_all (events_of setting_up empty_registry) (view empty_registry) k)
    × ((apply_all setting_up empty_registry).bus
        ≡ publish_all (events_of setting_up empty_registry) empty_registry.bus)
events_of_complete_example = events_of_complete setting_up empty_registry empty-IsSound
