-- ===== src/FanControl/Profiles.antt =====
-- internal/plugins/fancontrol/fancontrol.go: configured profiles, those that FanControl lists, and their
-- options. `join` is filepath.Join of a folder and a name; the parameters of names are those of
-- FanControl.Names, and `fold_other` is that of strings.EqualFold.
pub mod Merging
pub mod Keeping
use home_pc_agent.Common.{
  ℕ, Bool, true, false, ◌&&◌, ◌||◌, Option, none, some, List, [], ◌∷◌, map, Text, codes, ◌==◌, Dict,
  lookup, insert, keys, trim_space, is_empty, if◌then◌else◌,
}
use home_pc_agent.Entity.{Choice}
use home_pc_agent.Mqtt.Topics.{to_lower}
use home_pc_agent.Selects.{sort_choices, equal_fold, unique_key}
use home_pc_agent.FanControl.Names.{
  base_name, friendly_profile_name, profile_key_from_config_name, short_config_hash,
}

pub record Profile : Type 0 where
  pub name : Text
  pub config_name : Text
  pub source_path : Text

-- fanControlConfigs of ipc_windows.go
pub record Configs : Type 0 where
  pub configs : List Text
  pub current_config : Text
  pub config_folder : Text

-- the parameters: code of the standard library that only Windows or a table decides
pub record Library : Type 0 where
  pub volume_rest : Text → Text
  pub short_hash : Text → Text
  pub lower_other : ℕ → ℕ
  pub fold_other : ℕ → ℕ
  pub join : Text → Text → Text

module _ (l : Library) where
  abbrev pub base : Text → Text
  base = base_name l.volume_rest l.short_hash l.lower_other

  abbrev pub friendly : Text → Text
  friendly = friendly_profile_name l.volume_rest l.short_hash l.lower_other

  abbrev pub key_of : Text → Text
  key_of = profile_key_from_config_name l.volume_rest l.short_hash l.lower_other

  abbrev pub hash_of : Text → Text
  hash_of = short_config_hash l.volume_rest l.short_hash l.lower_other

  -- Profile.configName
  unfoldable pub config_name_of : Text → Profile → Text
  unfolding base_name
  config_name_of key p =
      if is_empty p.config_name
      then (if is_empty p.source_path then key else base p.source_path)
      else base p.config_name

  -- the two repairs of a configured profile
  abbrev pub with_config_name : Profile → Profile
  with_config_name p =
      if is_empty p.config_name
      then (if is_empty p.source_path then p else record p { config_name = base p.source_path })
      else p

  unfoldable pub with_name : Text → Profile → Profile
  unfolding friendly_profile_name config_name_of
  with_name key p =
      if is_empty p.name then record p { name = friendly (config_name_of key p) } else p

  -- The loop writes each key of `configured` once.
  unfoldable pub normalize_configured_profiles : Dict Profile → Dict Profile
  unfolding with_name base_name
  normalize_configured_profiles [] = []
  normalize_configured_profiles ((key, p) ∷ ps) =
      (key, with_name key (with_config_name p)) ∷ normalize_configured_profiles ps

  -- the empty text if no profile has the name
  unfoldable pub profile_key_by_config_name : Dict Profile → Text → Text
  unfolding equal_fold profile_key_from_config_name config_name_of
  profile_key_by_config_name [] config_name = []
  profile_key_by_config_name ((key, p) ∷ ps) config_name =
      let rest = profile_key_by_config_name ps config_name in
      if equal_fold l.fold_other key (key_of config_name)
        || equal_fold l.fold_other (config_name_of key p) config_name
      then key
      else rest

  unfoldable pub unique_profile_key : Dict Profile → Text → Text
  unfolding keys unique_key profile_key_from_config_name short_config_hash
  unique_profile_key profiles config_name =
      unique_key (keys profiles) (key_of config_name) (hash_of config_name)

  abbrev pub source_path_for : Text → Text → Text
  source_path_for folder name = if is_empty folder then [] else l.join folder name

  -- what the loop of mergeDiscoveredProfiles fills in
  unfoldable pub filled : Text → Text → Profile → Profile
  unfolding friendly_profile_name
  filled folder name p = record {
    name = if is_empty p.name then friendly name else p.name;
    config_name = if is_empty p.config_name then name else p.config_name;
    source_path = if is_empty p.source_path then source_path_for folder name else p.source_path;
  }

  -- a missing key reads as the zero profile
  abbrev pub profile_or_zero : Option Profile → Profile
  profile_or_zero none = record { name = []; config_name = []; source_path = [] }
  profile_or_zero (some p) = p

  abbrev pub add_or_fill : Text → Text → Dict Profile → Text → Dict Profile
  add_or_fill folder name profiles [] =
      insert (unique_profile_key profiles name)
        (record {
          name = friendly name;
          config_name = name;
          source_path = source_path_for folder name;
        })
        profiles
  add_or_fill folder name profiles (c ∷ key) =
      insert (c ∷ key) (filled folder name (profile_or_zero (lookup (c ∷ key) profiles))) profiles

  -- the body of the loop, on the base of the trimmed name
  unfoldable pub merge_profile : Text → Dict Profile → Text → Dict Profile
  unfolding insert lookup filled unique_profile_key profile_key_by_config_name friendly_profile_name
  merge_profile folder profiles name =
      if is_empty name
      then profiles
      else add_or_fill folder name profiles (profile_key_by_config_name profiles name)

  unfoldable pub merge_all : Text → List Text → Dict Profile → Dict Profile
  unfolding merge_profile base_name trim_space
  merge_all folder [] profiles = profiles
  merge_all folder (name ∷ names) profiles =
      merge_all folder names (merge_profile folder profiles (base (trim_space name)))

  unfoldable pub merge_discovered_profiles : Dict Profile → Configs → Dict Profile
  unfolding merge_all
  merge_discovered_profiles profiles c = merge_all c.config_folder c.configs profiles

  abbrev pub choices : Dict Profile → List Choice
  choices = map (λ (entry : Text × Profile). record { value = entry.0; name = entry.1.name })

  unfoldable pub options : Dict Profile → List Choice
  unfolding sort_choices to_lower
  options profiles = sort_choices (to_lower l.lower_other) (choices profiles)
