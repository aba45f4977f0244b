-- ===== src/Runner/Commands/Selecting.antt =====
-- A command to a select action, from its payload to the script's run and the state that is published.
use home_pc_agent.Common.{
  Option, some, Text, codes, Err, Value, text, object, Fields, get_field, ◌≡◌,
}
use home_pc_agent.Core.Scope.{World, publish_state}
use home_pc_agent.Runner.States.{Library}

module _ (l : Library) where
  -- an envelope whose state is this name
  abbrev pub ShowsName : Text → Value → Type 0
  ShowsName name envelope =
      (fields : Fields) × (envelope ≡ object fields)
      × (get_field (codes "state") fields ≡ some (text name))

  -- what is published and returned is what publishing this envelope gives
  abbrev pub Publishes : Text → Value → World → World × Option Err → Type 0
  Publishes id envelope w outcome =
      (outcome.0.registry ≡ (publish_state id envelope w).0.registry)
      × (outcome.1 ≡ (publish_state id envelope w).1)
