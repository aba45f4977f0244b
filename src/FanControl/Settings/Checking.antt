-- ===== src/FanControl/Settings/Checking.antt =====
-- What the configuration's checks accept.
use home_pc_agent.Common.{
  Bool, true, not, ◌&&◌, ◌||◌, [], ◌∷◌, Text, Dict, trim_space, has_char, is_empty, is_none, ◌≡◌,
  arith,
}
use home_pc_agent.PowerPlan.{key_matches}
use home_pc_agent.FanControl.Names.{any_char, is_separator}
use home_pc_agent.FanControl.Profiles.{Profile}
use home_pc_agent.FanControl.Settings.{Config, profile_error, Stat, file_error}

-- what the checks ask of the configuration with its defaults
abbrev pub is_file : (Text → Stat) → Text → Bool
is_file stat path = is_none (file_error path (stat path))

-- no slash and no backslash in the name of the profile's configuration
abbrev pub names_no_path : Profile → Bool
names_no_path p = not (has_char b'/' p.config_name) && not (has_char b'\\' p.config_name)

abbrev pub says_something : Profile → Bool
says_something p =
    not (is_empty p.name) || not (is_empty p.config_name) || not (is_empty p.source_path)

abbrev pub profile_ok : (Text → Stat) → Text → Profile → Bool
profile_ok stat key p =
    names_no_path p
    && says_something p
    && key_matches key
    && (is_empty (trim_space p.source_path) || is_file stat p.source_path)

unfoldable pub profiles_ok : (Text → Stat) → Dict Profile → Bool
profiles_ok stat [] = true
profiles_ok stat ((key, p) ∷ ps) = profile_ok stat key p && profiles_ok stat ps

abbrev pub path_ok : (Text → Stat) → Text → Bool
path_ok stat path = not (is_empty (trim_space path)) && is_file stat path

abbrev pub config_ok : (Text → Stat) → Config → Bool
config_ok stat c =
    path_ok stat c.exe_path && path_ok stat c.config_path && profiles_ok stat c.profiles

separated :
    (key name : Text) (p : Profile)
    → any_char is_separator name ≡ (has_char b'/' name || has_char b'\\' name)
    → is_none (profile_error key (record p { config_name = name })) ≡ (
        names_no_path (record p { config_name = name })
        && says_something (record p { config_name = name }))
unfolding profile_error has_char any_char
separated key [] p h = ground arith
separated key (c ∷ t) p h = ground (arith, h)
