-- ===== src/Runner/Commands.antt =====
-- internal/plugins/runner/runner.go: commands, from a payload to the script and to the state shown. What
-- the scripts return is an argument.
pub mod Choosing
pub mod Outcomes
pub mod Selecting
use home_pc_agent.Common.{
  ℕ, Bool, true, false, not, ◌&&◌, ◌||◌, Option, none, some, List, [], ◌∷◌, ◌++◌, Text, codes, ◌==◌,
  contains, Dict, lookup, Err, Result, ok, err, ◌>>=◌, string_option_required, unknown_option,
  item_gone, unsupported_kind, unsupported_input, not_an_object, setting_error, run_failed,
  exit_code, unknown_parameter, ℤ, is_zero, Value, null, boolean, text, number, opaque_value, array,
  object, Fields, no_fields, field, trim_space, is_empty, is_none, if◌then◌else◌,
}
use home_pc_agent.Entity.{Choice, Entity, option_value, option_name}
use home_pc_agent.Mqtt.Topics.{to_lower}
use home_pc_agent.Selects.{decimal, string_payload}
use home_pc_agent.Core.Scope.{World, publish_state, update_entity, go}
use home_pc_agent.Runner.Settings.{
  Param, nil, boolean_param, text_param, json_number, float, integer, other, OptionSettings, Action,
  Getter, Side, has_options_getter,
}
use home_pc_agent.Runner.Options.{option_map, option_names_from_map, build_entity, options_equal}
use home_pc_agent.Runner.Invocation.{
  CommandSpec, format_flat, print_integer, normalize_switch_state, parse_getter_value,
}
use home_pc_agent.Runner.Params.{Floats, validate_structured_parameters, validate_json_parameters}
use home_pc_agent.Runner.Getter.{map_getter_to_option_name}
use home_pc_agent.Runner.States.{
  Runtime, options_of, RunResult, Library, param_of, value_of, run_getter, is_nil,
  resolve_state_after_run, format_ha_state, new_state_envelope, state_only,
}

unfoldable pub params_of : (Value → Text) → Fields → Dict Param
params_of sprint no_fields = []
params_of sprint (field key value fs) = (key, param_of sprint value) ∷ params_of sprint fs

unfoldable pub payload_as_map : (Value → Text) → Value → Result (Dict Param)
unfolding params_of
payload_as_map sprint null = ok []
payload_as_map sprint (object fs) = ok (params_of sprint fs)
payload_as_map sprint _ = err not_an_object

-- decodePayloadMap; a JSON null reads as no parameters
abbrev pub decode_payload_map : (Text → Result (Dict Param)) → Text → Result (Dict Param)
decode_payload_map decode [] = ok []
decode_payload_map decode (c ∷ raw) = decode (c ∷ raw)

-- the parameters for the setter, and the state to show after a success
abbrev pub Resolved : Type 0
Resolved = Dict Param × Param

abbrev pub unless_bad : Resolved → Option Err → Result Resolved
unless_bad r none = ok r
unless_bad r (some e) = err e

module _ (l : Library) where
  abbrev pub structured_error : Action → Dict Param → Option Err
  structured_error a params =
      if a.setter.input == codes "structured" && not (is_empty a.setter.parameters)
      then validate_structured_parameters l.floats l.matches l.lower_other l.upper_other
          a.setter.parameters params
      else none

  unfoldable pub resolve_button_params : Action → Value → Text → Result Resolved
  unfolding payload_as_map validate_structured_parameters validate_json_parameters ◌==◌
  resolve_button_params a payload raw =
      if a.setter.input == codes "none"
      then ok ([], nil)
      else if a.setter.input == codes "structured"
      then (payload_as_map l.sprint payload >>= λ params.
          unless_bad (params, nil)
            (validate_structured_parameters l.floats l.matches l.lower_other l.upper_other
              a.setter.parameters params))
      else if a.setter.input == codes "json"
      then (decode_payload_map l.decode raw >>= λ params.
          unless_bad (params, nil)
            (validate_json_parameters l.floats l.matches l.lower_other l.upper_other
              a.setter.parameters params a.setter.json raw))
      else err (unsupported_input a.setter.input)

  abbrev pub with_option : Action → List Choice → Text → Option OptionSettings → Result Resolved
  with_option a choices key none = err (item_gone (codes "select option") key)
  with_option a choices key (some o) =
      unless_bad (o.parameters, text_param (option_name choices key))
        (structured_error a o.parameters)

  abbrev pub with_key :
      Action → Dict OptionSettings → List Choice → Text → Option Text → Result Resolved
  with_key a options choices shown none = err (unknown_option (codes "select") shown)
  with_key a options choices shown (some key) = with_option a choices key (lookup key options)

  abbrev pub with_payload :
      Action → Dict OptionSettings → List Choice → Option Text → Result Resolved
  with_payload a options choices none = err (string_option_required (codes "select"))
  with_payload a options choices (some shown) =
      with_key a options choices shown (option_value choices shown)

  unfoldable pub resolve_select_params : Action → Dict OptionSettings → Value → Result Resolved
  unfolding validate_structured_parameters option_names_from_map option_value option_name lookup
      ◌==◌
  resolve_select_params a options payload =
      with_payload a options (option_names_from_map options) (string_payload payload)

  abbrev pub with_side : Action → Result Bool → Result Resolved
  with_side a (err e) = err (setting_error (codes "switch command payload") e)
  with_side a (ok enabled) =
      let side = if enabled then a.setter.on else a.setter.off in
      unless_bad (side.parameters, boolean_param enabled) (structured_error a side.parameters)

  unfoldable pub resolve_switch_params : Action → Value → Result Resolved
  unfolding normalize_switch_state validate_structured_parameters ◌==◌
  resolve_switch_params a payload =
      with_side a (normalize_switch_state l.lower_other l.upper_other (param_of l.sprint payload))

  unfoldable pub resolve_command_params : Runtime → Value → Text → Result Resolved
  unfolding resolve_button_params resolve_select_params resolve_switch_params ◌==◌
  resolve_command_params r payload raw =
      if r.action.kind == codes "button"
      then resolve_button_params r.action payload raw
      else if r.action.kind == codes "select"
      then resolve_select_params r.action (options_of r) payload
      else if r.action.kind == codes "switch"
      then resolve_switch_params r.action payload
      else err (unsupported_kind r.action.kind)

  -- the end of handleCommand, after PublishState
  abbrev pub published : Runtime → World × Option Err → World × Option Err
  published r (w, some e) = (w, some e)
  published r (w, none) = (
    if r.action.state.after_set == codes "refresh"
        then go (codes "runner-post-set-" ++ r.entity_id) true w
        else w,
    none,
  )

  abbrev pub after_run :
      Runtime → Param → Result Param → Result RunResult → World → World × Option Err
  after_run r success getter (err e) w = (w, some (run_failed r.action_key e))
  after_run r success getter (ok result) w =
      if is_zero result.exit
      then published r (
          publish_state r.entity_id
            (new_state_envelope l r.action.kind (resolve_state_after_run l r.action success getter)
              result)
            w)
      else (w, some (run_failed r.action_key (exit_code result.exit result.stderr)))

  abbrev pub spec_of : Action → Dict Param → CommandSpec
  spec_of a params = record {
    command = a.setter.command;
    args = a.setter.args;
    interpreter = a.setter.interpreter;
    path = a.setter.path;
    static_args = a.setter.static_args;
    delivery = a.setter.delivery;
    params = params;
    max_bytes = a.max_bytes;
  }

  abbrev pub run_resolved :
      Runtime
      → (CommandSpec → Result RunResult)
      → Result Param
      → Result Resolved
      → World
      → World × Option Err
  run_resolved r runs getter (err e) w = (w, some e)
  run_resolved r runs getter (ok (params, success)) w =
      after_run r success getter (runs (spec_of r.action params)) w

  -- `runs` is runCommand, and `getter` what runGetter would return after it
  unfoldable pub handle_runtime :
      Runtime
      → (CommandSpec → Result RunResult)
      → Result Param
      → Value
      → Text
      → World
      → World × Option Err
  unfolding resolve_command_params resolve_state_after_run new_state_envelope publish_state go ◌==◌
  handle_runtime r runs getter payload raw w =
      run_resolved r runs getter (resolve_command_params r payload raw) w

  abbrev pub handle_found :
      Text
      → Option Runtime
      → (CommandSpec → Result RunResult)
      → Result Param
      → Value
      → Text
      → World
      → World × Option Err
  handle_found id none runs getter payload raw w = (w, some (item_gone (codes "runner entity") id))
  handle_found id (some r) runs getter payload raw w = handle_runtime r runs getter payload raw w

  unfoldable pub handle_command :
      Dict Runtime
      → Text
      → (CommandSpec → Result RunResult)
      → Result Param
      → Value
      → Text
      → World
      → World × Option Err
  unfolding handle_runtime lookup
  handle_command runtimes id runs getter payload raw w =
      handle_found id (lookup id runtimes) runs getter payload raw w
