-- ===== src/Runner/Params/Accepting.antt =====
-- What the parameters that a schema accepts are like.
use home_pc_agent.Common.{ℕ, Bool, true, some, Text, Dict, lookup, Result, ◌≡◌}
use home_pc_agent.Runner.Settings.{Param, ParameterSchema}
use home_pc_agent.Runner.Params.{Floats, name_matches}
use home_pc_agent.Runner.Params.Typing.{IsTyped}

module _ (floats : Floats) (matches : Text → Text → Result Bool)
    (lower_other upper_other : ℕ → ℕ) where
  -- a value that the schema knows and accepts, and that is of its type
  abbrev pub IsAccepted : Dict ParameterSchema → Text → Param → Type 0
  IsAccepted schema key value =
      (s : ParameterSchema) × (lookup key schema ≡ some s)
      × (name_matches key ≡ true)
      × IsTyped floats matches lower_other upper_other s value
