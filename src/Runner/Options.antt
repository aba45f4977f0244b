-- ===== src/Runner/Options.antt =====
-- internal/plugins/runner: the options of a select action, of options_getter.go, and the entity of an
-- action, of runner.go. `lower_other` is unicode.ToLower outside ASCII; what json.Unmarshal reads is an
-- argument.
use home_pc_agent.Common.{
  ℕ, suc, Bool, true, false, ◌&&◌, Option, none, some, List, [], ◌∷◌, ◌++◌, Text, codes, ◌==◌,
  contains, Dict, lookup, has, insert, keys, sort, Err, invalid_setting, Result, ok, err, ◌>>=◌,
  name_missing, output_empty, trim, trim_space, is_empty, length, nat_eq, if◌then◌else◌,
}
use home_pc_agent.Entity.{Entity, Choice, Kind, select, switch, button, unknown}
use home_pc_agent.Mqtt.Topics.{to_lower, replace_char, replace_runs, is_underscore}
use home_pc_agent.Selects.{decimal}
use home_pc_agent.PowerPlan.{key_char}
use home_pc_agent.Runner.Invocation.{format_flat}
use home_pc_agent.Runner.Settings.{
  Param, OptionSettings, Action, has_options_getter, entity_category,
}

-- the options a runtime holds: those discovered, if there are any, or the configured ones
abbrev pub option_map : Dict OptionSettings → Dict OptionSettings → Dict OptionSettings
option_map [] configured = configured
option_map (o ∷ discovered) configured = o ∷ discovered

-- a missing key reads as the zero option
abbrev pub option_label : Text → Option OptionSettings → Text
option_label key none = key
option_label key (some o) = if is_empty o.name then key else o.name

unfoldable pub choices_of : Dict OptionSettings → List Text → List Choice
unfolding lookup
choices_of options [] = []
choices_of options (key ∷ rest) =
    record { value = key; name = option_label key (lookup key options) } ∷ choices_of options rest

unfoldable pub option_names_from_map : Dict OptionSettings → List Choice
unfolding choices_of sort keys
option_names_from_map options = choices_of options (sort (keys options))

-- entity.Kind(action.Kind) of the three kinds, or another string
unfoldable pub kind_of : Text → Kind
unfolding ◌==◌
kind_of t =
    if t == codes "select"
    then select
    else if t == codes "switch"
    then switch
    else if t == codes "button"
    then button
    else unknown t

abbrev pub options_for : Dict OptionSettings → Kind → Result (List Choice)
options_for options select = ok (option_names_from_map options)
options_for options switch = ok []
options_for options button = ok []
options_for options kind = err (invalid_setting (codes "kind") (codes "unsupported kind"))

abbrev pub entity_with : Text → Action → Result (List Choice) → Result Entity
entity_with id a (err e) = err e
entity_with id a (ok choices) = ok (record {
  id = id;
  name = a.name;
  kind = kind_of a.kind;
  options = choices;
  icon = a.icon;
  device_class = [];
  state_class = [];
  unit = [];
  category = entity_category a;
})

-- buildEntity, for a runtime with these options
unfoldable pub build_entity : Text → Action → Dict OptionSettings → Result Entity
unfolding kind_of option_names_from_map entity_category
build_entity id a options = entity_with id a (options_for options (kind_of a.kind))

-- an element of the JSON that an options getter prints
pub record Discovered : Type 0 where
  pub value : Text
  pub name : Text
  pub parameters : Option (Dict Param)

abbrev pub params_or_empty : Option (Dict Param) → Dict Param
params_or_empty none = []
params_or_empty (some params) = params

-- fmt.Sprintf("%s_%d", key, index) for a key that is taken
unfoldable pub free_key : Text → ℕ → Dict OptionSettings → Text
unfolding decimal lookup
free_key key index options = if has key options then key ++ (b'_' ∷ decimal index) else key

module _ (lower_other : ℕ → ℕ) where
  unfoldable pub slug_option_key : Text → ℕ → Text
  unfolding to_lower trim_space trim replace_char replace_runs decimal
  slug_option_key name index =
      let key = trim is_underscore (
        replace_runs key_char false
          (replace_char 215 b'x' (to_lower lower_other (trim_space name)))) in
      if is_empty key then codes "opt_" ++ decimal index else key

  abbrev pub own_key : Discovered → Text → ℕ → Text
  own_key item name index =
      if is_empty (trim_space item.value) then slug_option_key name index else trim_space item.value

  -- the loop of parseOptionsGetterJSON
  unfoldable pub add_options :
      ℕ → List Text → Dict OptionSettings → List Discovered → Result (Dict OptionSettings)
  unfolding slug_option_key trim_space contains insert free_key
  add_options index seen options [] = ok options
  add_options index seen options (item ∷ items) =
      let name = trim_space item.name in
      let skipped = add_options (suc index) seen options items in
      let added =
        add_options (suc index) (name ∷ seen)
          (insert (free_key (own_key item name index) index options)
            (record { name = name; parameters = params_or_empty item.parameters }) options)
          items in
      if is_empty name
      then err (name_missing index)
      else if contains seen name
      then skipped
      else added

  -- `decode` is json.Unmarshal of a list of options, or of one
  unfoldable pub parse_options_getter_json :
      (Text → Result (List Discovered)) → Text → Result (Dict OptionSettings)
  unfolding add_options trim_space
  parse_options_getter_json decode stdout =
      if is_empty (trim_space stdout)
      then err output_empty
      else decode (trim_space stdout) >>= add_options 0 [] []

-- `fmt.Sprint(left) != fmt.Sprint(right)`, for a key that may be missing
abbrev pub same_printed : Param → Option Param → Bool
same_printed left none = false
same_printed left (some right) = format_flat left == format_flat right

-- parametersEqual and optionsEqual
unfoldable pub params_within : Dict Param → Dict Param → Bool
unfolding lookup format_flat ◌==◌
params_within [] b = true
params_within ((key, left) ∷ a) b = same_printed left (lookup key b) && params_within a b

unfoldable pub parameters_equal : Dict Param → Dict Param → Bool
unfolding params_within
parameters_equal a b = nat_eq (length a) (length b) && params_within a b

abbrev pub same_option : OptionSettings → Option OptionSettings → Bool
same_option left none = false
same_option left (some right) =
    left.name == right.name && parameters_equal left.parameters right.parameters

unfoldable pub options_within : Dict OptionSettings → Dict OptionSettings → Bool
unfolding parameters_equal lookup ◌==◌
options_within [] b = true
options_within ((key, left) ∷ a) b = same_option left (lookup key b) && options_within a b

unfoldable pub options_equal : Dict OptionSettings → Dict OptionSettings → Bool
unfolding options_within
options_equal a b = nat_eq (length a) (length b) && options_within a b

-- An attempt of discoverOptions: what runOptionsGetter returns, or the end of the context in the
-- wait before it.
pub data Attempt : Type 0 where
  found : Dict OptionSettings → Attempt
  attempt_failed wait_ended : Err → Attempt

-- the discovered options, or none if the configured ones are used
abbrev pub no_attempt_left : Dict OptionSettings → Err → Result (Dict OptionSettings)
no_attempt_left [] e = err e
no_attempt_left (o ∷ configured) e = ok []

unfoldable pub try_attempts :
    Dict OptionSettings → Err → List Attempt → Result (Dict OptionSettings)
try_attempts configured last [] = no_attempt_left configured last
try_attempts configured last (found options ∷ attempts) = ok options
try_attempts configured last (attempt_failed e ∷ attempts) = try_attempts configured e attempts
try_attempts configured last (wait_ended e ∷ attempts) = err e

unfoldable pub discover_options :
    Action → Attempt → Attempt → Attempt → Result (Dict OptionSettings)
unfolding try_attempts has_options_getter
discover_options a first second third =
    if has_options_getter a
    then try_attempts a.options output_empty (first ∷ second ∷ third ∷ [])
    else ok []
