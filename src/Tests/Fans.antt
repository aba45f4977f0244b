-- ===== src/Tests/Fans.antt =====
-- Fan profiles: one that is configured, and the files that FanControl lists.
use home_pc_agent.Common.{
  true, false, none, some, [], ◌∷◌, ◌++◌, Text, codes, Dict, keys, lookup, contains, all, Result,
  ok, err, external, is_empty, ◌≡◌, refl, ◌==◌, if◌then◌else◌,
}
use home_pc_agent.FanControl.Names.Words.{has_text}
use home_pc_agent.FanControl.Profiles.{
  Profile, Configs, Library, key_of, profile_key_by_config_name, merge_profile,
  merge_discovered_profiles,
}
use home_pc_agent.FanControl.Profiles.Merging.{merge_profile-keys}
use home_pc_agent.FanControl.Profiles.Keeping.{Extends, merge_discovered_profiles-Extends}
use home_pc_agent.FanControl.Settings.{Config, Stat, directory}
use home_pc_agent.FanControl.Control.{not_there, Answers, active_profile}
use home_pc_agent.Tests.Data.{no_lower}

abbrev library : Library
library = record {
  volume_rest = λ path. path;
  short_hash = λ t. codes "0badcafe";
  lower_other = no_lower;
  fold_other = no_lower;
  join = λ folder name. folder ++ (codes "\\" ++ name);
}

abbrev quiet : Profile
quiet = record { name = codes "Quiet"; config_name = codes "quiet.json"; source_path = [] }

abbrev profiles : Dict Profile
profiles = (codes "quiet", quiet) ∷ []

named : all has_text (keys profiles) ≡ true
unfolding all keys
named = refl

-- another file with the same key
merge_profile-keys_example :
    (contains (keys profiles) (key_of library (codes "Quiet!.json")) ≡ true
      → keys (merge_profile library [] profiles (codes "Quiet!.json")) ≡ keys profiles)
    × (keys (merge_profile library [] profiles (codes "Quiet!.json")) ≡ (
        if is_empty (profile_key_by_config_name library profiles (codes "Quiet!.json"))
        then keys profiles ++ key_of library (codes "Quiet!.json") ∷ []
        else keys profiles))
merge_profile-keys_example = merge_profile-keys library [] (codes "Quiet!.json") profiles named refl

abbrev configs : Configs
configs = record {
  configs = codes "quiet.json" ∷ codes "Full Speed.json" ∷ [];
  current_config = codes "quiet.json";
  config_folder = codes "D:\\fans";
}

there : lookup (codes "quiet") profiles ≡ some quiet
unfolding lookup ◌==◌
there = refl

merge_discovered_profiles-Extends_example :
    (q : Profile) × (lookup (codes "quiet") (merge_discovered_profiles library profiles configs)
      ≡ some q)
    × Extends quiet q
merge_discovered_profiles-Extends_example =
    merge_discovered_profiles-Extends library profiles configs (codes "quiet") quiet there

abbrev config : Config
config = record {
  enabled = true;
  exe_path = [];
  config_path = codes "D:\\fans";
  profiles = profiles;
  timeout = 0;
}

abbrev stat : Text → Stat
stat path = directory

-- the pipe is not there, and FanControl does not start
abbrev dead : Answers
dead = record {
  opened = not_there;
  running = false;
  launched = some (external (codes "not found"));
  waited = none;
  loads = λ name. none;
}

abbrev nothing_active : Result Text
nothing_active = ok []

-- no pipe; the source file of the profile has the content of the configuration file
abbrev stored : Dict Profile
stored = (codes "quiet", record quiet { source_path = codes "D:\\fans\\quiet.json" }) ∷ []

abbrev content : Text → Result Text
content path = ok (codes "c0ffee")

found :
    active_profile library not_there (err (external [])) content (codes "user.json") stored
    ≡ ok (codes "quiet")
unfolding active_profile lookup ◌==◌
found = refl
