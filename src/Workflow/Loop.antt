-- ===== src/Workflow/Loop.antt =====
-- The loop of `WorkflowEngine.run` in src/shyam/workflow/engine.py, and `run` itself.
use shyam.Base.{
  String, ◌<>◌, Bool, true, false, Option, none, some, List, [], ◌∷◌, if◌then◌else◌, length, map,
}
use shyam.Base.Dict.{Dict}
use shyam.Workflow.Engine.{Environment, Run, step_result, or_message, publish, execute_step}
use shyam.Workflow.Models.{
  WorkflowStep, StepResult, is_success, Workflow, WorkflowResult, workflow_started,
  workflow_completed, workflow_failed, workflow_cancelled, step_skipped,
}
use shyam.Workflow.State.{WorkflowState, StepState}

-- The variables of the loop after its last round.
pub record Progress : Type 0 where
  pub results : List StepResult
  pub workflow_failed : Bool
  pub workflow_error : Option String
  pub workflow_cancelled : Bool

abbrev pub prepend : StepResult → Progress → Progress
prepend x p = record p { results = x ∷ p.results }

abbrev pub progress : List StepResult → Bool → Option String → Bool → Progress
progress results failed error cancelled = record {
  results = results;
  workflow_failed = failed;
  workflow_error = error;
  workflow_cancelled = cancelled;
}

module _ {W E : Type 0} (env : Environment W E) where
  -- `for remaining_step in workflow.steps[index:]`
  unfoldable pub cancel_remaining : List WorkflowStep → Run W → Run W × List StepResult
  unfolding publish
  cancel_remaining [] r = (r, [])
  cancel_remaining (step ∷ steps) r =
      let reason = r.token.reason in
      let (r', results) = cancel_remaining steps (
        publish env (step_skipped step.step_id step.capability ("Workflow cancelled: " <> reason))
          r) in
      (r', step_result step StepState.cancelled none none (some reason) ∷ results)

  -- The rest of a round after a step was executed: the flags for the next one, and the event of a
  -- failure.
  unfoldable pub after_step :
      WorkflowStep → Run W × StepResult → Option String → Run W × Bool × Option String
  unfolding publish
  after_step step (r, x) error =
      if is_success x
      then (r, false, error)
      else (let message = or_message x.error ("Step '" <> step.step_id <> "' failed") in
          (publish env (workflow_failed step.step_id message) r, true, some message))

  -- The loop over the steps that are left, from its flags.
  unfoldable pub loop : Dict E → List WorkflowStep → Bool → Option String → Run W → Run W × Progress
  unfolding cancel_remaining after_step execute_step publish
  loop executors [] failed error r = (r, progress [] failed error false)
  loop executors (step ∷ steps) failed error r = elim r.token.is_cancelled [
    | true ↦
        let (r', results) = cancel_remaining (step ∷ steps) r in
        (r', progress results failed (some r.token.reason) true)
    | false ↦ elim failed [
      | true ↦
          let (r', p) =
            loop executors steps true error
              (publish env (step_skipped step.step_id step.capability "Prior step failed") r) in
          (
            r',
            prepend
                (step_result step StepState.skipped none none
                  (some "Skipped due to earlier step failure"))
                p,
          )
      | false ↦
          let (r₁, x) = execute_step env executors step r in
          let (r₂, failed', error') = after_step step (r₁, x) error in
          let (r₃, p) = loop executors steps failed' error' r₂ in (r₃, prepend x p)
    ]
  ]

  abbrev pub workflow_result :
      Workflow → WorkflowState → List StepResult → Option String → WorkflowResult
  workflow_result wf state results error = record {
    workflow_id = wf.workflow_id;
    name = wf.name;
    state = state;
    step_results = results;
    error_detail = error;
  }

  -- The end of `run`: the terminal state and its event.
  unfoldable pub finish : Workflow → Run W × Progress → Run W × WorkflowResult
  unfolding publish
  finish wf (r, p) =
      if p.workflow_cancelled
      then (
        publish env (workflow_cancelled r.token.reason) r,
        workflow_result wf WorkflowState.cancelled p.results p.workflow_error,
      )
      else if p.workflow_failed
      then (r, workflow_result wf WorkflowState.failed p.results p.workflow_error)
      else (
        publish env (workflow_completed (length wf.steps)) r,
        workflow_result wf WorkflowState.completed p.results p.workflow_error,
      )

  -- A token that is cancelled before the first step.
  unfoldable pub cancelled_before : Workflow → Run W → Run W × WorkflowResult
  unfolding publish
  cancelled_before wf r =
      let results =
        map (λ step. step_result step StepState.cancelled none none (some r.token.reason))
          wf.steps in
      let r' = publish env (workflow_cancelled r.token.reason) r in
      (r', workflow_result wf WorkflowState.cancelled results (some r'.token.reason))

  unfoldable pub start : Dict E → Workflow → Run W → Run W × WorkflowResult
  unfolding loop finish cancelled_before
  start executors wf r =
      if r.token.is_cancelled
      then cancelled_before wf r
      else finish wf
          (loop executors wf.steps false none (publish env (workflow_started (length wf.steps)) r))

  -- `run`
  unfoldable pub run : Dict E → Workflow → Run W → Run W × WorkflowResult
  unfolding start publish
  run executors wf r = elim wf.steps [
    | [] ↦ (
      publish env (workflow_completed 0) (publish env (workflow_started 0) r),
      workflow_result wf WorkflowState.completed [] none,
    )
    | _ ∷ _ ↦ start executors wf r
  ]
