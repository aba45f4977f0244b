-- ===== src/Runner/Getter.antt =====
-- internal/plugins/runner/getter_match.go: which option a getter's value stands for. `close` says whether
-- two texts read as floats that refreshMatches takes for the same; `scalar` prints a float.
use home_pc_agent.Common.{
  ℕ, Bool, false, ◌||◌, Option, none, some, List, [], ◌∷◌, ◌++◌, Text, codes, ◌==◌, Dict, lookup,
  keys, sort, value_empty, unmatched_value, Result, ok, err, trim_space, is_empty, if◌then◌else◌,
}
use home_pc_agent.Entity.{Choice, option_name}
use home_pc_agent.Mqtt.Topics.{to_lower, replace_char}
use home_pc_agent.Selects.{equal_fold}
use home_pc_agent.Runner.Settings.{Param, nil, float, OptionSettings}
use home_pc_agent.Runner.Options.{option_names_from_map}
use home_pc_agent.Runner.Invocation.{format_flat}

-- the loop of mapGetterToOptionName over the options, by name or value
unfoldable pub named_option : List Choice → Text → Option Text
unfolding ◌==◌
named_option [] raw = none
named_option (o ∷ os) raw =
    let later = named_option os raw in
    if o.name == raw || o.value == raw then some o.name else later

module _ (lower_other fold_other : ℕ → ℕ) (close : Text → Text → Bool) (scalar : Text → Text) where
  -- formatScalar
  unfoldable pub format_scalar : Param → Text
  unfolding format_flat
  format_scalar (float t) = scalar t
  format_scalar p = format_flat p

  -- paramValue, whose name is already lowered; a value that is nil counts as missing
  unfoldable pub param_value : Text → Dict Param → Param
  unfolding to_lower ◌==◌
  param_value needle [] = nil
  param_value needle ((key, value) ∷ params) =
      let later = param_value needle params in
      if to_lower lower_other key == needle then value else later

  abbrev pub size_matches : Text → Param → Param → Bool
  size_matches raw nil height = false
  size_matches raw width nil = false
  size_matches raw width height =
      equal_fold fold_other (replace_char 215 b'x' raw)
        (format_scalar width ++ (b'x' ∷ format_scalar height))

  abbrev pub scale_matches : Text → Param → Bool
  scale_matches raw nil = false
  scale_matches raw scale =
      let shown = format_scalar scale in
      raw == shown || raw == (shown ++ codes "%") || equal_fold fold_other raw (shown ++ codes "%")

  unfoldable pub refresh_matches : Text → Text → Bool
  unfolding to_lower trim_space replace_char ◌==◌
  refresh_matches raw configured =
      let left = trim_space (to_lower lower_other raw) in
      let right = trim_space (to_lower lower_other configured) in
      left == right || close (replace_char b'_' b'.' left) (replace_char b'_' b'.' right)

  abbrev pub rate_matches : Text → Param → Bool
  rate_matches raw nil = false
  rate_matches raw rate = refresh_matches raw (format_scalar rate)

  unfoldable pub getter_raw_matches_option : Text → Dict Param → Bool
  unfolding param_value format_scalar refresh_matches equal_fold replace_char ◌==◌
  getter_raw_matches_option raw params =
      size_matches raw (param_value (codes "width") params) (param_value (codes "height") params)
      || scale_matches raw (param_value (codes "scale") params)
      || rate_matches raw (param_value (codes "refreshrate") params)

  abbrev pub option_matches : Text → Option OptionSettings → Bool
  option_matches raw none = getter_raw_matches_option raw []
  option_matches raw (some o) = getter_raw_matches_option raw o.parameters

  unfoldable pub matching_option : Text → Dict OptionSettings → List Text → Option Text
  unfolding getter_raw_matches_option lookup
  matching_option raw options [] = none
  matching_option raw options (key ∷ rest) =
      let later = matching_option raw options rest in
      if option_matches raw (lookup key options) then some key else later

  abbrev pub by_parameters : Text → Dict OptionSettings → Option Text → Result Text
  by_parameters raw options none = err (unmatched_value raw)
  by_parameters raw options (some key) = ok (option_name (option_names_from_map options) key)

  abbrev pub by_name : Text → Dict OptionSettings → Option Text → Result Text
  by_name raw options (some name) = ok name
  by_name raw options none =
      by_parameters raw options (matching_option raw options (sort (keys options)))

  unfoldable pub map_getter_to_option_name : Dict OptionSettings → Text → Result Text
  unfolding named_option matching_option option_names_from_map option_name trim_space sort keys
  map_getter_to_option_name options value =
      let raw = trim_space value in
      if is_empty raw
      then err value_empty
      else by_name raw options (named_option (option_names_from_map options) raw)
