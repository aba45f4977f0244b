-- ===== src/Runner/Invocation.antt =====
-- internal/plugins/runner/exec.go: the command line of a script, how its parameters reach it, and what is
-- read of its output. `lower_other` and `upper_other` are unicode.ToLower and unicode.ToUpper outside
-- ASCII, `marshal` is json.Marshal of the parameters, and `environ` what os.Environ returns.
pub mod Delivery
use home_pc_agent.Common.{
  ℕ, ◌-◌, ◌+◌, ◌*◌, Bool, true, false, not, ◌&&◌, ◌||◌, Option, none, some, List, [], ◌∷◌, ◌++◌,
  map, Text, codes, ◌==◌, contains, Dict, lookup, keys, sort, Err, unsupported_interpreter,
  unknown_switch_state, not_a_switch_state, output_empty, missing_json_key, setting_error, Result,
  ok, err, ◌>>=◌, ℤ, pos, negsuc, positive, trim_space, take, length, ltb, is_lower, is_empty,
  if◌then◌else◌,
}
use home_pc_agent.Mqtt.Topics.{to_lower}
use home_pc_agent.Selects.{decimal}
use home_pc_agent.Runner.Settings.{
  Param, nil, boolean_param, text_param, json_number, float, integer, other, Getter,
}

-- %d
unfoldable pub print_integer : ℤ → Text
unfolding decimal
print_integer (pos n) = decimal n
print_integer (negsuc n) = b'-' ∷ decimal (n + 1)

-- fmt.Sprint of nil
unfoldable pub format_flat : Param → Text
unfolding print_integer
format_flat nil = codes "<nil>"
format_flat (boolean_param true) = codes "true"
format_flat (boolean_param false) = codes "false"
format_flat (text_param t) = t
format_flat (json_number t) = t
format_flat (float t) = t
format_flat (integer n) = print_integer n
format_flat (other t) = t

unfoldable pub format_power_shell : Param → Text
unfolding format_flat
format_power_shell (boolean_param true) = codes "$true"
format_power_shell (boolean_param false) = codes "$false"
format_power_shell p = format_flat p

-- a missing key reads as nil
abbrev pub param_or_nil : Option Param → Param
param_or_nil none = nil
param_or_nil (some p) = p

unfoldable pub power_shell_args : Dict Param → List Text → List Text
unfolding format_power_shell lookup
power_shell_args params [] = []
power_shell_args params (key ∷ rest) =
    (b'-' ∷ key)
    ∷ format_power_shell (param_or_nil (lookup key params))
    ∷ power_shell_args params rest

unfoldable pub flat_args : Dict Param → List Text → List Text
unfolding format_flat lookup
flat_args params [] = []
flat_args params (key ∷ rest) =
    format_flat (param_or_nil (lookup key params)) ∷ flat_args params rest

-- deliveryArgsForPowerShell; no parameters give no keys
unfoldable pub delivery_args_for_power_shell : Text → Dict Param → List Text
unfolding power_shell_args sort keys ◌==◌
delivery_args_for_power_shell delivery params =
    if delivery == codes "args" then power_shell_args params (sort (keys params)) else []

unfoldable pub delivery_args_flat : Text → Dict Param → List Text
unfolding flat_args sort keys ◌==◌
delivery_args_flat delivery params =
    if delivery == codes "args" then flat_args params (sort (keys params)) else []

pub record CommandSpec : Type 0 where
  pub command : Text
  pub args : List Text
  pub interpreter : Text
  pub path : Text
  pub static_args : List Text
  pub delivery : Text
  pub params : Dict Param
  pub max_bytes : ℤ

-- the program, its arguments, its standard input, and its environment if it is not inherited
pub record Invocation : Type 0 where
  pub program : Text
  pub arguments : List Text
  pub stdin : Option Text
  pub environment : Option (List Text)

-- s[:n] of the output, when it is longer
abbrev pub cut : ℕ → Text → Text × Bool
cut n s = if ltb n (length s) then (take n s, true) else (s, false)

abbrev pub cut_both : Option ℕ → Text → Text → Text × Text × Bool
cut_both none stdout stderr = (stdout, stderr, false)
cut_both (some n) stdout stderr =
    ((cut n stdout).0, (cut n stderr).0, (cut n stdout).1 || (cut n stderr).1)

-- Texts of an output are lists of bytes.
unfoldable pub truncate_output : Text → Text → ℤ → Text × Text × Bool
unfolding take
truncate_output stdout stderr max_bytes = cut_both (positive max_bytes) stdout stderr

abbrev pub json_value : Text → Result (Dict Param) → Result Param
json_value path (err e) = err (setting_error (codes "parse getter json") e)
json_value path (ok decoded) = elim (lookup path decoded) [
  | none ↦ err (missing_json_key path)
  | some value ↦ ok value
]

-- `decode` is json.Unmarshal into a map
unfoldable pub parse_getter_value : (Text → Result (Dict Param)) → Text → Getter → Result Param
unfolding trim_space lookup ◌==◌
parse_getter_value decode stdout g =
    if g.format == codes "json"
    then json_value g.json_path (decode (trim_space stdout))
    else if is_empty (trim_space stdout)
    then err output_empty
    else ok (text_param (trim_space stdout))

abbrev pub on_words : List Text
on_words = codes "true" ∷ codes "on" ∷ codes "1" ∷ codes "yes" ∷ []

abbrev pub off_words : List Text
off_words = codes "false" ∷ codes "off" ∷ codes "0" ∷ codes "no" ∷ []

module _ (lower_other upper_other : ℕ → ℕ) where
  unfoldable pub normalize_switch_state : Param → Result Bool
  unfolding to_lower trim_space contains
  normalize_switch_state (boolean_param b) = ok b
  normalize_switch_state (text_param t) =
      let word = to_lower lower_other (trim_space t) in
      if contains on_words word
      then ok true
      else if contains off_words word
      then ok false
      else err (unknown_switch_state t)
  normalize_switch_state _ = err not_a_switch_state

  -- strings.ToUpper
  unfoldable pub to_upper : Text → Text
  to_upper [] = []
  to_upper (c ∷ s) =
      (if ltb c 128 then (if is_lower c then c - 32 else c) else upper_other c) ∷ to_upper s

  unfoldable pub env_entries : Dict Param → List Text → List Text
  unfolding to_upper format_flat lookup
  env_entries params [] = []
  env_entries params (key ∷ rest) =
      (codes "HOMEPPC_"
        ++ (to_upper key ++ (b'=' ∷ format_flat (param_or_nil (lookup key params)))))
      ∷ env_entries params rest

  unfoldable pub normalize_interpreter : Text → Text
  unfolding to_lower trim_space ◌==◌
  normalize_interpreter interpreter =
      let name = to_lower lower_other (trim_space interpreter) in
      if name == codes "powershell.exe" then codes "powershell" else name

  module _ (marshal : Dict Param → Result Text) (environ : List Text) where
    abbrev pub stdin_of : Result Text → Result (Option Text × Option (List Text))
    stdin_of (err e) = err (setting_error (codes "marshal stdin json") e)
    stdin_of (ok payload) = ok (some payload, none)

    unfoldable pub delivery_extras : Text → Dict Param → Result (Option Text × Option (List Text))
    unfolding env_entries sort keys ◌==◌
    delivery_extras delivery params =
        if delivery == codes "stdin_json"
        then stdin_of (marshal params)
        else if delivery == codes "env"
        then ok (none, some (environ ++ env_entries params (sort (keys params))))
        else ok (none, none)

    abbrev pub invoked :
        Text → List Text → Result (Option Text × Option (List Text)) → Result Invocation
    invoked program arguments (err e) = err e
    invoked program arguments (ok (stdin, environment)) = ok (record {
      program = program;
      arguments = arguments;
      stdin = stdin;
      environment = environment;
    })

    abbrev pub power_shell_options : Text → List Text
    power_shell_options path =
        codes "-NoProfile"
        ∷ codes "-NonInteractive"
        ∷ codes "-ExecutionPolicy"
        ∷ codes "Bypass"
        ∷ codes "-File"
        ∷ path
        ∷ []

    -- the switch of buildInvocation over the interpreter, with the arguments for PowerShell, those
    -- for the others, and the extras
    unfoldable pub interpret :
        CommandSpec
        → List Text
        → List Text
        → Result (Option Text × Option (List Text))
        → Text
        → Result Invocation
    unfolding ◌==◌
    interpret s power flat extras name =
        if name == codes "pwsh" || name == codes "powershell"
        then invoked name (power_shell_options s.path ++ (s.static_args ++ power)) extras
        else if name == codes "cmd"
        then invoked (codes "cmd") (codes "/c" ∷ s.path ∷ (s.static_args ++ flat)) extras
        else if name == codes "sh" || name == codes "bash"
        then invoked name (s.path ∷ (s.static_args ++ flat)) extras
        else if name == codes "exe"
        then invoked s.path (s.static_args ++ flat) extras
        else err (unsupported_interpreter s.interpreter)

    abbrev pub invoke :
        CommandSpec
        → List Text
        → List Text
        → Result (Option Text × Option (List Text))
        → Result Invocation
    invoke s power flat extras =
        if is_empty (trim_space s.command)
        then interpret s power flat extras (normalize_interpreter s.interpreter)
        else invoked s.command (s.args ++ (s.path ∷ (s.static_args ++ power))) extras

    unfoldable pub build_invocation : CommandSpec → Result Invocation
    unfolding interpret normalize_interpreter trim_space delivery_extras
        delivery_args_for_power_shell delivery_args_flat
    build_invocation s =
        invoke s (delivery_args_for_power_shell s.delivery s.params)
          (delivery_args_flat s.delivery s.params) (delivery_extras s.delivery s.params)
