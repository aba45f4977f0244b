-- ===== src/Tests/Daemons.antt =====
-- Power profiles: what power-profiles-daemon lists, and a plugin that uses it.
use home_pc_agent.Common.{
  true, false, ◌&&◌, Option, none, some, List, [], ◌∷◌, Text, codes, Dict, contains, Err, Result,
  ok, err, external, is_empty, ◌≡◌, refl, distinct,
}
use home_pc_agent.Selects.Sorting.{in_order}
use home_pc_agent.PowerProfile.{
  Service, Variant, string_variant, Property, plain, entries, parse_profiles, Plugin,
  profile_options,
}
use home_pc_agent.PowerProfile.Parsing.{has_text, offers, are_ids, parse_profiles_lem}
use home_pc_agent.PowerProfile.Running.{Turn, tick, received, owner_changed, watch}
use home_pc_agent.PowerProfile.Running.Keeping.{IsSteady, watch-IsSteady}
use home_pc_agent.Tests.Data.{lamp_world}

abbrev entry : Text → Dict Variant
entry id = (codes "Profile", string_variant id) ∷ []

abbrev listed : List (Dict Variant)
listed = entry (codes "balanced") ∷ entry [] ∷ [] ∷ entry (codes "balanced") ∷ []

parse_profiles_lem_example :
    ((ids : List Text)
      → parse_profiles (entries listed) ≡ ok ids
      → (is_empty ids ≡ false)
        × (are_ids ids ≡ true)
        × ((t : Text) → contains ids t ≡ (has_text t && offers listed t)))
    × ((e : Err)
        → parse_profiles (entries listed) ≡ err e
        → (t : Text) → (has_text t && offers listed t) ≡ false)
parse_profiles_lem_example = parse_profiles_lem listed

abbrev same_text : Text → Text
same_text t = t

abbrev plugin : Plugin
plugin = record { service = none; options = []; active = []; world = lamp_world }

abbrev answers : Service → Result (Dict Property)
answers svc = ok (
    (codes "Profiles", entries listed)
    ∷ (codes "ActiveProfile", plain (string_variant (codes "balanced")))
    ∷ [])

abbrev turns : List (Turn × (Service → Result (Dict Property)))
turns =
    (tick, answers) ∷ (received (owner_changed (codes "net.hadess.PowerProfiles")), answers) ∷ []

steady : IsSteady same_text plugin.options
unfolding in_order distinct contains
steady = (refl, refl, refl)

watch-IsSteady_example : IsSteady same_text (watch same_text turns plugin).options
watch-IsSteady_example = watch-IsSteady same_text turns plugin steady

abbrev daemon : Service
daemon = record { name = codes "d"; path = codes "/d"; interface_name = codes "d" }

abbrev available : Plugin
unfolding profile_options
available = record plugin {
  service = some daemon;
  options = profile_options same_text (codes "balanced" ∷ []);
}

abbrev rejects : Service → Text → Option Err
rejects svc id = some (external (codes "rejected"))

abbrev reads : Service → Result Text
reads svc = ok (codes "balanced")

abbrev nothing_else : Plugin → Plugin
nothing_else p = p
