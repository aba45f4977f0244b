-- ===== src/Runner/Running.antt =====
-- internal/plugins/runner: a run of a script, of exec.go, and those of the two getters. `execute` is
-- exec.Cmd.Run with what it captures.
use home_pc_agent.Common.{
  ℕ, List, [], Text, codes, Dict, Err, exit_code, Result, ok, err, ◌>>=◌, ℤ, is_zero, if◌then◌else◌,
}
use home_pc_agent.Runner.Settings.{Param, Action, Getter, OptionSettings}
use home_pc_agent.Runner.Options.{Discovered, parse_options_getter_json}
use home_pc_agent.Runner.Invocation.{CommandSpec, Invocation, build_invocation, truncate_output}
use home_pc_agent.Runner.States.{RunResult}

-- a process that ended, with its exit code, or one that could not be run
pub data Execution : Type 0 where
  ended : RunResult → Execution
  broken : Err → Execution

abbrev pub run_result : ℤ → Execution → Result RunResult
unfolding truncate_output
run_result max_bytes (broken e) = err e
run_result max_bytes (ended r) =
    let (stdout, stderr, truncated) = truncate_output r.stdout r.stderr max_bytes in
    ok (record r { stdout = stdout; stderr = stderr; truncated = truncated })

module _ (lower_other upper_other : ℕ → ℕ) (marshal : Dict Param → Result Text)
    (environ : List Text) (execute : Invocation → Execution) where
  unfoldable pub run_command : CommandSpec → Result RunResult
  unfolding build_invocation truncate_output
  run_command s = build_invocation lower_other upper_other marshal environ s >>= λ i.
      run_result s.max_bytes (execute i)

-- the script of a getter, which takes no parameters
abbrev pub getter_spec : Action → Getter → CommandSpec
getter_spec a g = record {
  command = g.command;
  args = g.args;
  interpreter = g.interpreter;
  path = g.path;
  static_args = g.static_args;
  delivery = codes "args";
  params = [];
  max_bytes = a.max_bytes;
}

abbrev pub options_result :
    (ℕ → ℕ) → (Text → Result (List Discovered)) → RunResult → Result (Dict OptionSettings)
unfolding parse_options_getter_json
options_result lower_other decode r =
    if is_zero r.exit
    then parse_options_getter_json lower_other decode r.stdout
    else err (exit_code r.exit r.stderr)

-- runOptionsGetter, by what its script comes to
unfoldable pub run_options_getter :
    (ℕ → ℕ) → (Text → Result (List Discovered)) → Result RunResult → Result (Dict OptionSettings)
unfolding parse_options_getter_json
run_options_getter lower_other decode outcome = outcome >>= options_result lower_other decode
