-- ===== src/Workflow/Course.antt =====
-- The courses a run can take, as an indexed type: what `WorkflowEngine.run` in
-- src/shyam/workflow/engine.py is meant to do, told without its loop.
use shyam.Base.{String, ◌<>◌, Bool, true, false, ◌≡◌, none, some, List, [], ◌∷◌}
use shyam.Base.Dict.{Dict}
use shyam.Workflow.Engine.{Environment, Run, step_result, or_message, publish}
use shyam.Workflow.Models.{WorkflowStep, StepResult, workflow_failed, step_skipped}
use shyam.Workflow.State.{WorkflowState, StepState}
use shyam.Workflow.Steps.{IsServed, IsFailed}

abbrev pub cancelled_result : WorkflowStep → String → StepResult
cancelled_result step reason = step_result step StepState.cancelled none none (some reason)

abbrev pub skipped_result : WorkflowStep → StepResult
skipped_result step =
    step_result step StepState.skipped none none (some "Skipped due to earlier step failure")

-- The text an error leaves in `workflow_error`.
abbrev pub failure_message : StepResult → String
failure_message x = or_message x.error ("Step '" <> x.step_id <> "' failed")

module _ {W E : Type 0} (env : Environment W E) (executors : Dict E) where
  -- The run after a step is passed over.
  abbrev pub passed : WorkflowStep → String → Run W → Run W
  passed step reason r = publish env (step_skipped step.step_id step.capability reason) r

  -- The steps are cancelled one by one from a run, each with the reason that the token then has.
  pub data IsCut : Run W → List WorkflowStep → List StepResult → Type 0 where
    nothing_left : {r : Run W} → IsCut r [] []
    cut :
        {r : Run W} {steps : List WorkflowStep} {xs : List StepResult} (step : WorkflowStep)
        → IsCut (passed step ("Workflow cancelled: " <> r.token.reason) r) steps xs
        → IsCut r (step ∷ steps) (cancelled_result step r.token.reason ∷ xs)

  -- From a run, after a failure or not: the steps that are left, with the state the run ends in and
  -- their results. Before each step the token decides: the rest is cut exactly if it is cancelled.
  pub data Course
      : Run W → Bool → List WorkflowStep → WorkflowState → List StepResult → Type 0 where
    all_done : {r : Run W} → Course r false [] WorkflowState.completed []
    gave_up : {r : Run W} → Course r true [] WorkflowState.failed []
    stopped :
        {r : Run W} {failed : Bool} {step : WorkflowStep} {steps : List WorkflowStep}
        {xs : List StepResult}
        → r.token.is_cancelled ≡ true
        → IsCut r (step ∷ steps) xs
        → Course r failed (step ∷ steps) WorkflowState.cancelled xs
    skip :
        {r : Run W} {steps : List WorkflowStep} {state : WorkflowState} {xs : List StepResult}
        (step : WorkflowStep)
        → r.token.is_cancelled ≡ false
        → Course (passed step "Prior step failed" r) true steps state xs
        → Course r true (step ∷ steps) state (skipped_result step ∷ xs)
    serve :
        {r after : Run W} {steps : List WorkflowStep} {state : WorkflowState} {xs : List StepResult}
        {step : WorkflowStep} {x : StepResult}
        → r.token.is_cancelled ≡ false
        → IsServed env executors step r x after
        → Course after false steps state xs
        → Course r false (step ∷ steps) state (x ∷ xs)
    fail :
        {r after : Run W} {steps : List WorkflowStep} {state : WorkflowState} {xs : List StepResult}
        {step : WorkflowStep} {x : StepResult}
        → r.token.is_cancelled ≡ false
        → IsFailed env executors step r x after
        → Course
            (publish env (workflow_failed step.step_id (failure_message x)) after)
            true
            steps
            state
            xs
        → Course r false (step ∷ steps) state (x ∷ xs)
