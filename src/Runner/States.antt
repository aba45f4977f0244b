-- ===== src/Runner/States.antt =====
-- internal/plugins/runner: the state that an action shows, of runner.go and state.go. What the scripts
-- print and return is an argument.
use home_pc_agent.Common.{
  ℕ, Bool, true, false, not, ◌&&◌, ◌||◌, Text, codes, ◌==◌, Dict, Result, ok, err, ◌>>=◌, exit_code,
  ℤ, is_zero, Value, null, boolean, text, number, opaque_value, array, object, any_object, Fields,
  no_fields, field, is_empty, if◌then◌else◌,
}
use home_pc_agent.Selects.{decimal}
use home_pc_agent.Runner.Settings.{
  Param, nil, boolean_param, text_param, json_number, float, integer, other, OptionSettings, Action,
}
use home_pc_agent.Runner.Options.{option_map}
use home_pc_agent.Runner.Invocation.{
  format_flat, print_integer, normalize_switch_state, parse_getter_value,
}
use home_pc_agent.Runner.Params.{Floats}
use home_pc_agent.Runner.Getter.{map_getter_to_option_name}

-- the state of one action; `discovered` is empty until options are discovered
pub record Runtime : Type 0 where
  pub action : Action
  pub action_key : Text
  pub entity_id : Text
  pub discovered : Dict OptionSettings

abbrev pub options_of : Runtime → Dict OptionSettings
options_of r = option_map r.discovered r.action.options

pub record RunResult : Type 0 where
  pub exit : ℤ
  pub stdout : Text
  pub stderr : Text
  pub truncated : Bool
  pub duration_ms : ℕ
  pub finished_at : Text

-- Code outside the repository, and Unicode's tables: the readings of JSON, floats and patterns, how
-- fmt.Sprint prints a list or a map, and the comparisons of Runner.Getter.
pub record Library : Type 0 where
  pub lower_other : ℕ → ℕ
  pub upper_other : ℕ → ℕ
  pub fold_other : ℕ → ℕ
  pub floats : Floats
  pub matches : Text → Text → Result Bool
  pub close : Text → Text → Bool
  pub scalar : Text → Text
  pub sprint : Value → Text
  pub decode : Text → Result (Dict Param)

-- the values that a payload and a parameter share
abbrev pub param_of : (Value → Text) → Value → Param
param_of sprint null = nil
param_of sprint (boolean b) = boolean_param b
param_of sprint (text t) = text_param t
param_of sprint (number t) = json_number t
param_of sprint (opaque_value t) = other t
param_of sprint (array items) = other (sprint (array items))
param_of sprint (object fields) = other (sprint (object fields))
param_of sprint (any_object fields) = other (sprint (any_object fields))

unfoldable pub value_of : Param → Value
unfolding print_integer
value_of nil = null
value_of (boolean_param b) = boolean b
value_of (text_param t) = text t
value_of (json_number t) = number t
value_of (float t) = opaque_value t
value_of (integer n) = opaque_value (print_integer n)
value_of (other t) = opaque_value t

module _ (l : Library) where
  -- runGetter, by what its script comes to
  abbrev pub getter_value : Runtime → Param → Result Param
  getter_value r value =
      if r.action.kind == codes "switch"
      then (normalize_switch_state l.lower_other l.upper_other value >>= λ b. ok (boolean_param b))
      else if r.action.kind == codes "select"
      then (map_getter_to_option_name l.lower_other l.fold_other l.close l.scalar (options_of r)
            (format_flat value)
          >>= λ name. ok (text_param name))
      else ok value

  abbrev pub getter_result : Runtime → RunResult → Result Param
  getter_result r result =
      if is_zero result.exit
      then parse_getter_value l.decode result.stdout r.action.getter >>= getter_value r
      else err (exit_code result.exit result.stderr)

  unfoldable pub run_getter : Runtime → Result RunResult → Result Param
  unfolding normalize_switch_state map_getter_to_option_name format_flat parse_getter_value ◌==◌
  run_getter r outcome = outcome >>= getter_result r

  -- what the getter says after a set, or the state of the success
  abbrev pub getter_or : Text → Param → Result Param → Param
  getter_or kind success (err e) = success
  getter_or kind success (ok value) =
      if kind == codes "switch"
      then elim (normalize_switch_state l.lower_other l.upper_other value) [
        | err e ↦ success
        | ok b ↦ boolean_param b
      ]
      else value

  abbrev pub is_nil : Param → Bool
  is_nil nil = true
  is_nil _ = false

  -- resolveStateAfterRun, `getter` being what runGetter would return
  unfoldable pub resolve_state_after_run : Action → Param → Result Param → Param
  unfolding normalize_switch_state ◌==◌
  resolve_state_after_run a success getter =
      let is_select = a.kind == codes "select" in
      if a.state.source == codes "none"
      then (if is_select
          then (if is_nil success then text_param (codes "unknown") else success)
          else nil)
      else if a.state.source == codes "getter"
      then (if a.state.after_set == codes "last_success" || (is_select && not (is_nil success))
          then success
          else getter_or a.kind success getter)
      else success

  -- formatHAState
  unfoldable pub format_ha_state : Text → Param → Value
  unfolding normalize_switch_state value_of ◌==◌
  format_ha_state kind value =
      if kind == codes "switch"
      then elim (normalize_switch_state l.lower_other l.upper_other value) [
        | err e ↦ value_of value
        | ok true ↦ text (codes "true")
        | ok false ↦ text (codes "false")
      ]
      else value_of value

  abbrev pub unless_empty : Text → Text → Fields → Fields
  unless_empty key value rest = if is_empty value then rest else field key (text value) rest

  -- newStateEnvelope; a map is its entries in any order
  unfoldable pub new_state_envelope : Text → Param → RunResult → Value
  unfolding format_ha_state print_integer decimal
  new_state_envelope kind state result = object (
      field (codes "state") (format_ha_state kind state) (
        field (codes "last_run") (text result.finished_at) (
          field (codes "exit_code") (opaque_value (print_integer result.exit)) (
            field (codes "duration_ms") (opaque_value (decimal result.duration_ms)) (
              unless_empty (codes "stdout") result.stdout (
                unless_empty (codes "stderr") result.stderr (
                  if result.truncated
                  then field (codes "truncated") (boolean true) no_fields
                  else no_fields)))))))

  -- initialEnvelope
  unfoldable pub initial_envelope : Action → Value
  unfolding ◌==◌
  initial_envelope a = object (
      field (codes "state")
        (if a.state.source == codes "none" && a.kind == codes "select"
          then text (codes "unknown")
          else null)
        no_fields)

  abbrev pub state_only : Text → Param → Value
  state_only kind value = object (field (codes "state") (format_ha_state kind value) no_fields)

  -- publishInitialState, by what runGetter returns
  abbrev pub getter_envelope : Action → Result Param → Value
  getter_envelope a (err e) = initial_envelope a
  getter_envelope a (ok value) = state_only a.kind value

  unfoldable pub first_envelope : Action → Result Param → Value
  unfolding initial_envelope format_ha_state ◌==◌
  first_envelope a getter =
      if a.state.source == codes "getter" then getter_envelope a getter else initial_envelope a
