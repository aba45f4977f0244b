-- ===== src/FanControl/Settings.antt =====
-- internal/plugins/fancontrol: the configuration's defaults and checks, of fancontrol.go and
-- config_validate.go. What os.Stat answers is an argument.
pub mod Checking
use home_pc_agent.Common.{
  ℕ, Bool, true, false, not, ◌&&◌, ◌||◌, Option, none, some, List, [], ◌∷◌, ◌++◌, Text, codes, Dict,
  Err, Result, ok, err, path_required, config_name_is_path, profile_is_empty, bad_profile_key,
  is_directory, invalid_field, invalid_profile_path, trim_space, nat_eq, is_empty, is_none, ◌≡◌,
  refl, arith, if◌then◌else◌, ap, ◌∙◌, Bool-cases, Option-cases, inl, inr,
}
use home_pc_agent.PowerPlan.{key_matches}
use home_pc_agent.FanControl.Names.{any_char, is_separator}
use home_pc_agent.FanControl.Profiles.{Profile}

pub record Config : Type 0 where
  pub enabled : Bool
  pub exe_path : Text
  pub config_path : Text
  pub profiles : Dict Profile
  pub timeout : ℕ

abbrev pub default_exe_path : Text
default_exe_path = codes "C:\\Program Files (x86)\\FanControl\\FanControl.exe"

abbrev pub default_config_path : Text
default_config_path = codes "C:\\Program Files (x86)\\FanControl\\Configurations\\userConfig.json"

abbrev pub or_path : Text → Text → Text
or_path default [] = default
or_path default (c ∷ path) = c ∷ path

unfoldable pub with_defaults : Config → Config
with_defaults c = record c {
  exe_path = or_path default_exe_path c.exe_path;
  config_path = or_path default_config_path c.config_path;
  timeout = if nat_eq c.timeout 0 then 20_000_000_000 else c.timeout;
}

-- the body of the loop of Validate
unfoldable pub profile_error : Text → Profile → Option Err
unfolding any_char
profile_error key p =
    if not (is_empty p.config_name) && any_char is_separator p.config_name
    then some (config_name_is_path key)
    else if is_empty p.config_name && is_empty p.source_path && is_empty p.name
    then some (profile_is_empty key)
    else none

abbrev pub first_error : Option Err → Option Err → Option Err
first_error none later = later
first_error (some e) later = some e

unfoldable pub profiles_error : Dict Profile → Option Err
unfolding profile_error
profiles_error [] = none
profiles_error ((key, p) ∷ ps) = first_error (profile_error key p) (profiles_error ps)

unfoldable pub validate : Config → Option Err
unfolding profiles_error trim_space
validate c =
    if is_empty (trim_space c.exe_path)
    then some (path_required (codes "exe_path"))
    else if is_empty (trim_space c.config_path)
    then some (path_required (codes "config_path"))
    else profiles_error c.profiles

abbrev pub config_or_error : Config → Option Err → Result Config
config_or_error c none = ok c
config_or_error c (some e) = err e

-- the preparation that NewFactory passes to ConfigFactory
unfoldable pub prepare : Config → Result Config
unfolding with_defaults validate
prepare c =
    let c' = with_defaults c in if c'.enabled then config_or_error c' (validate c') else ok c'

-- what os.Stat answers
pub data Stat : Type 0 where
  stat_failed : Err → Stat
  directory file : Stat

abbrev pub file_error : Text → Stat → Option Err
file_error path (stat_failed e) = some e
file_error path directory = some (is_directory path)
file_error path file = none

abbrev pub invalid : (Err → Err) → Option Err → List Err → List Err
invalid wrap none rest = rest
invalid wrap (some e) rest = wrap e ∷ rest

-- the body of the loop over the two paths, and the later errors
unfoldable pub path_errors : (Text → Stat) → Text → Text → List Err → List Err
unfolding trim_space
path_errors stat field path rest =
    if is_empty (trim_space path)
    then path_required field ∷ rest
    else invalid (invalid_field field) (file_error path (stat path)) rest

abbrev pub key_errors : Text → List Err → List Err
key_errors key rest = if key_matches key then rest else bad_profile_key key ∷ rest

abbrev pub source_errors : (Text → Stat) → Text → Text → List Err → List Err
source_errors stat key path rest =
    if is_empty (trim_space path)
    then rest
    else invalid (invalid_profile_path key) (file_error path (stat path)) rest

unfoldable pub profile_errors : (Text → Stat) → Dict Profile → List Err
unfolding key_matches trim_space
profile_errors stat [] = []
profile_errors stat ((key, p) ∷ ps) =
    key_errors key (source_errors stat key p.source_path (profile_errors stat ps))

abbrev pub errors_after : (Text → Stat) → Config → Option Err → List Err
errors_after stat c (some e) = e ∷ []
errors_after stat c none =
    path_errors stat (codes "exe_path") c.exe_path
      (path_errors stat (codes "config_path") c.config_path (profile_errors stat c.profiles))

unfoldable pub validate_configured : (Text → Stat) → Config → List Err
unfolding with_defaults validate path_errors profile_errors
validate_configured stat c = let c' = with_defaults c in errors_after stat c' (validate c')
