-- ===== src/Tests/Plans.antt =====
-- Power plans: two that are configured, and what Windows enumerates.
use home_pc_agent.Common.{
  trim_right, trim_left, ℕ, zero, suc, ◌≤◌, ◌<◌, true, false, Option, none, some, List, [], ◌∷◌,
  Text, codes, Dict, lookup, contains, distinct, length, All, Err, ok, external, is_some, ◌≡◌, refl,
  arith, ◌==◌,
}
use home_pc_agent.Selects.{numbered, search, unique_key, digits}
use home_pc_agent.Selects.Fresh.{unique_key-ends}
use home_pc_agent.PowerPlan.{Mode, has_mode_guid, merge_discovered_modes}
use home_pc_agent.PowerPlan.Merging.{guids, merge_discovered_modes_lem}
use home_pc_agent.PowerPlan.Discovery.{
  NameAnswer, EnumAnswer, scheme, no_more_items, scheme_mode, round_mode, modes_from, found_modes,
  discover_power_plans, discover_power_plans_lem, power_plan_friendly_name, plain_guid,
}
use home_pc_agent.Tests.Data.{no_lower}

abbrev taken_keys : List Text
taken_keys = codes "quiet" ∷ codes "quiet_ab" ∷ codes "quiet_ab_2" ∷ []

unique_key-ends_example :
    (key : Text) × (search taken_keys
        (numbered (codes "quiet") (codes "ab"))
        (suc (length taken_keys))
        2
      ≡ some key)
    × (contains taken_keys key ≡ false)
    × (contains taken_keys (unique_key taken_keys (codes "quiet") (codes "ab")) ≡ false)
unique_key-ends_example = unique_key-ends taken_keys (codes "quiet") (codes "ab")

third : unique_key taken_keys (codes "quiet") (codes "ab") ≡ codes "quiet_ab_3"
unfolding unique_key search numbered digits contains ◌==◌
third = refl

abbrev balanced : Mode
balanced = record { name = codes "Balanced"; guid = codes "381B4222" }

abbrev saver : Mode
saver = record { name = codes "Power saver"; guid = codes "A1841308" }

abbrev configured : Dict Mode
configured = (codes "balanced", balanced) ∷ []

abbrev enumerated : List Mode
enumerated = record balanced { guid = codes "381b4222" } ∷ saver ∷ []

merge_discovered_modes_lem_example :
    ((k : Text) (v : Mode)
      → lookup k configured ≡ some v
      → lookup k (merge_discovered_modes no_lower no_lower configured enumerated) ≡ some v)
    × All
        (λ (m : Mode).
          has_mode_guid no_lower no_lower
            (merge_discovered_modes no_lower no_lower configured enumerated)
            m.guid
          ≡ true)
        enumerated
    × (distinct (guids no_lower no_lower configured) ≡ true
        → distinct (
            guids no_lower no_lower
              (merge_discovered_modes no_lower no_lower configured enumerated))
          ≡ true)
merge_discovered_modes_lem_example =
    merge_discovered_modes_lem no_lower no_lower configured enumerated

-- powercfg refuses every switch
abbrev refusing_run : Text → Option Err
refusing_run guid = some (external (codes "exit status 1"))

abbrev read_name : Text → NameAnswer
read_name name = record { size_error = none; size = 26; read_error = none; content = name }

abbrev enumerate : ℕ → EnumAnswer
enumerate zero = scheme (codes "{381b4222}") (read_name (codes "Balanced"))
enumerate (suc index) = no_more_items

abbrev first_mode : ℕ → Mode
first_mode index = record { name = codes "Balanced"; guid = codes "381b4222" }

abbrev never_done : ℕ → Option Err
never_done index = none

discover_power_plans_lem_example :
    (round_mode (enumerate 1) ≡ none
      → is_some (discover_power_plans never_done enumerate (suc 1)) ≡ true)
    × (((i : ℕ) → i ≤ 1 → never_done i ≡ none)
        → ((i : ℕ) → i < 1 → round_mode (enumerate i) ≡ some (ok (first_mode i)))
        → enumerate 1 ≡ no_more_items
        → discover_power_plans never_done enumerate (suc 1)
          ≡ some (found_modes (modes_from first_mode 0 1)))
discover_power_plans_lem_example =
    discover_power_plans_lem never_done enumerate first_mode 1 (omega arith)

enumerated_once : discover_power_plans never_done enumerate 2 ≡ some (ok (first_mode 0 ∷ []))
unfolding discover_power_plans scheme_mode power_plan_friendly_name plain_guid trim_right trim_left
enumerated_once = refl
