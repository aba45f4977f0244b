-- ===== src/Runner/Commands/Outcomes.antt =====
-- What becomes of a command to an action.
use home_pc_agent.Common.{
  Bool, true, false, Option, none, some, Text, Dict, Err, Result, ok, err, Value, is_zero, ◌≡◌, ◌≢◌,
  refl,
}
use home_pc_agent.Core.Scope.{World, publish_state}
use home_pc_agent.Runner.Settings.{Param}
use home_pc_agent.Runner.Invocation.{CommandSpec}
use home_pc_agent.Runner.States.{
  Runtime, RunResult, Library, resolve_state_after_run, new_state_envelope,
}
use home_pc_agent.Runner.Commands.{
  resolve_command_params, published, after_run, spec_of, handle_runtime,
}

-- whether the script ran and returned zero
abbrev pub succeeded : Result RunResult → Bool
succeeded (err e) = false
succeeded (ok result) = is_zero result.exit

module _ (l : Library) where
  abbrev pub Kept : World → World × Option Err → Type 0
  Kept w outcome = (outcome.0 ≡ w) × (outcome.1 ≢ none)

  pub after_run-failed :
      (r : Runtime) (success : Param) (getter : Result Param) (ran : Result RunResult) (w : World)
      → succeeded ran ≡ false
      → Kept w (after_run l r success getter ran w)
  after_run-failed r success getter (err e) w h = (refl, λ e. cc e)
  after_run-failed r success getter (ok result) w h = rw (h) (refl, λ e. cc e)

  pub after_run-succeeded :
      (r : Runtime) (success : Param) (getter : Result Param) (result : RunResult) (w : World)
      → is_zero result.exit ≡ true
      → after_run l r success getter (ok result) w
        ≡ published l r (
            publish_state r.entity_id
              (new_state_envelope l r.action.kind
                (resolve_state_after_run l r.action success getter)
                result)
              w)
  after_run-succeeded r success getter result w h = rw (h) refl

  -- A command whose payload gives no parameters, or whose script does not run or does not return
  -- zero, fails and leaves everything as it was. Otherwise the script has run with the parameters,
  -- and the state of the run is published; a task is started if the action is set to refresh, and only
  -- if the publication succeeded.
  pub handle_runtime_lem :
      (r : Runtime) (runs : CommandSpec → Result RunResult) (getter : Result Param)
      (payload : Value) (raw : Text) (w : World)
      → ((e : Err)
          → resolve_command_params l r payload raw ≡ err e
          → handle_runtime l r runs getter payload raw w ≡ (w, some e))
        × ((params : Dict Param) (success : Param)
            → resolve_command_params l r payload raw ≡ ok (params, success)
            → (succeeded (runs (spec_of l r.action params)) ≡ false
                → Kept w (handle_runtime l r runs getter payload raw w))
              × ((result : RunResult)
                  → runs (spec_of l r.action params) ≡ ok result
                  → is_zero result.exit ≡ true
                  → handle_runtime l r runs getter payload raw w
                    ≡ published l r (
                        publish_state r.entity_id
                          (new_state_envelope l r.action.kind
                            (resolve_state_after_run l r.action success getter)
                            result)
                          w)))
  unfolding handle_runtime
  handle_runtime_lem r runs getter payload raw w = (
    (λ e h. rw (h) refl),
    (λ params success h. (
      (λ f. rw (h) (after_run-failed r success getter (runs (spec_of l r.action params)) w f)),
      (λ result ran z. rw (h, ran) (after_run-succeeded r success getter result w z)),
    )),
  )
