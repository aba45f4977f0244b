-- ===== src/FanControl/Control/Active.antt =====
-- Which profile counts as active.
use home_pc_agent.Common.{
  true, false, some, List, [], Text, Dict, lookup, contains, ◌≢◌, Result, ok, is_empty, ◌≡◌, ◌⊎◌,
}
use home_pc_agent.FanControl.Profiles.{Profile}
use home_pc_agent.FanControl.Control.{has_content}

-- no profile's source file has the content
abbrev pub IsUnknown : (Text → Result Text) → Text → Dict Profile → Type 0
IsUnknown hash current profiles =
    (key : Text) (p : Profile)
    → lookup key profiles ≡ some p
    → is_empty p.source_path ≡ false
    → hash p.source_path ≢ ok current

-- the key of a profile whose source file has the content, or nothing if there is none
abbrev pub HasContent : (Text → Result Text) → Text → Dict Profile → Text → Type 0
HasContent hash current profiles key =
    ((key ≡ []) × IsUnknown hash current profiles)
    ⊎ ((p : Profile) × (lookup key profiles ≡ some p)
        × (is_empty p.source_path ≡ false)
        × (hash p.source_path ≡ ok current))

-- what the loop over the keys in this order finds
abbrev First : (Text → Result Text) → Text → Dict Profile → List Text → Text → Type 0
First hash current profiles order key =
    ((key ≡ [])
      × ((k : Text)
          → contains order k ≡ true
          → has_content hash current (lookup k profiles) ≡ false))
    ⊎ ((p : Profile) × (lookup key profiles ≡ some p)
        × (is_empty p.source_path ≡ false)
        × (hash p.source_path ≡ ok current))
