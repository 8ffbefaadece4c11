-- ===== src/Workflow/FailFast.antt =====
-- What follows from the course of a run of `WorkflowEngine.run` in src/shyam/workflow/engine.py.
use shyam.Base.{length, ◌≡◌, ◌≢◌, ◌↔◌, List, ◌∷◌, ◌++◌, All}
use shyam.Base.Dict.{Dict}
use shyam.Workflow.Engine.{Environment, Run, publish}
use shyam.Workflow.Loop.{run}
use shyam.Workflow.Models.{StepResult, Workflow, workflow_started}
use shyam.Workflow.Results.{run-Course}
use shyam.Workflow.State.{WorkflowState, StepState}
use shyam.Workflow.Courses.{
  IsDone, IsUntried, Each, IsResultOf, AreServed, AreServed-IsDone, RunCourse-labels,
  RunCourse-completed, RunCourse-done, RunCourse-failed,
}

module _ {W E : Type 0} (env : Environment W E) (executors : Dict E) (wf : Workflow)
    (r : Run W) where
  -- The results of a run belong to the steps of the workflow, one for each, in order.
  pub run-labels : Each IsResultOf wf.steps (run env executors wf r).1.step_results
  run-labels = RunCourse-labels (run-Course env executors wf r)

  -- A run returns the state COMPLETED exactly if every step result is COMPLETED.
  run-completed_iff :
      ((run env executors wf r).1.state ≡ WorkflowState.completed)
      ↔ All IsDone (run env executors wf r).1.step_results
  run-completed_iff =
      let course = run-Course env executors wf r in
      (
        λ h. AreServed-IsDone env executors _ _ _ (RunCourse-completed course h),
        RunCourse-done course,
      )

  -- In a run that returns the state COMPLETED, each step in turn was served from the run that the
  -- step before it left, the first from the published start: the navigator, asked for the step, chose
  -- a target whose provider has an executor; the executor, called with that target and the input of
  -- the step, returned an output; the result holds that target and that output; and the completion
  -- was published.
  pub run-IsServed :
      (run env executors wf r).1.state ≡ WorkflowState.completed
      → AreServed env executors
          (publish env (workflow_started (length wf.steps)) r)
          wf.steps
          (run env executors wf r).1.step_results
  run-IsServed = RunCourse-completed (run-Course env executors wf r)

  -- Around any failed step of a run, the steps before it are COMPLETED, those after it SKIPPED or
  -- CANCELLED, and the run is not COMPLETED.
  pub run-fail_fast :
      (before after : List StepResult) (x : StepResult)
      → (run env executors wf r).1.step_results ≡ before ++ x ∷ after
      → x.state ≡ StepState.failed
      → All IsDone before
        × All IsUntried after
        × ((run env executors wf r).1.state ≢ WorkflowState.completed)
  run-fail_fast = RunCourse-failed (run-Course env executors wf r)
