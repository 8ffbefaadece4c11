-- ===== src/Workflow/Results.antt =====
-- What a run of `WorkflowEngine.run` in src/shyam/workflow/engine.py leaves: its results, its terminal
-- state and its events.
use mathlib.Core.List.{append_assoc, append-nil}
use shyam.Base.{
  ℕ, String, true, false, ◌≡◌, ◌≢◌, ◌⊎◌, sym, subst, none, List, [], ◌∷◌, ◌++◌, inl, inr,
  Bool-cases, List-cases, arith, map, length,
}
use shyam.Base.Dict.{Dict}
use shyam.Workflow.Engine.{Environment, Run, publish}
use shyam.Workflow.Loop.{Progress, loop, finish, cancelled_before, start, run, workflow_result}
use shyam.Workflow.Models.{
  WorkflowStep, StepResult, Workflow, WorkflowEvent, workflow_started, workflow_completed,
  workflow_cancelled,
}
use shyam.Workflow.Course.{Course, all_done, cancelled_result}
use shyam.Workflow.Outcome.{final_state, rounds, loop-Course}
use shyam.Workflow.State.{WorkflowState}

-- The events that close a run that ended in the given state.
unfoldable pub closing : ℕ → String → WorkflowState → List WorkflowEvent
closing n reason WorkflowState.completed = workflow_completed n ∷ []
closing n reason WorkflowState.cancelled = workflow_cancelled reason ∷ []
closing n reason WorkflowState.failed = []
closing n reason WorkflowState.pending = []
closing n reason WorkflowState.running = []

-- The course of a whole run: refused if the token is cancelled before the first step, and otherwise,
-- or without steps, that of the steps from the published start.
pub data RunCourse {W E : Type 0} (env : Environment W E) (executors : Dict E) (wf : Workflow)
    (r : Run W) : WorkflowState → List StepResult → Type 0 where
  refused :
      r.token.is_cancelled ≡ true
      → wf.steps ≢ []
      → RunCourse env executors wf r WorkflowState.cancelled
          (map (λ step. cancelled_result step r.token.reason) wf.steps)
  admitted :
      {state : WorkflowState} {xs : List StepResult}
      → (r.token.is_cancelled ≡ false) ⊎ (wf.steps ≡ [])
      → Course env executors
          (publish env (workflow_started (length wf.steps)) r)
          false
          wf.steps
          state
          xs
      → RunCourse env executors wf r state xs

module _ {W E : Type 0} (env : Environment W E) where
  run-empty :
      (executors : Dict E) (wf : Workflow) (r : Run W)
      → wf.steps ≡ []
      → run env executors wf r ≡ (
        publish env (workflow_completed 0) (publish env (workflow_started 0) r),
        workflow_result env wf WorkflowState.completed [] none,
      )
  unfolding run
  run-empty executors wf r h = ground arith

  run-cancelled :
      (executors : Dict E) (wf : Workflow) (r : Run W) {step : WorkflowStep}
      {steps : List WorkflowStep}
      → wf.steps ≡ step ∷ steps
      → r.token.is_cancelled ≡ true
      → run env executors wf r ≡ cancelled_before env wf r
  unfolding run start
  run-cancelled executors wf r h c = ground arith

  run-started :
      (executors : Dict E) (wf : Workflow) (r : Run W) {step : WorkflowStep}
      {steps : List WorkflowStep}
      → wf.steps ≡ step ∷ steps
      → r.token.is_cancelled ≡ false
      → run env executors wf r
        ≡ finish env wf (
            loop env executors wf.steps false none
              (publish env (workflow_started (length wf.steps)) r))
  unfolding run start
  run-started executors wf r h c = ground arith

  finish-result :
      (wf : Workflow) (q : Run W × Progress)
      → (finish env wf q).1
        ≡ workflow_result env wf (final_state q.1) q.1.results q.1.workflow_error
  unfolding finish final_state
  finish-result wf q = ground arith

  finish-events :
      (wf : Workflow) (q : Run W × Progress)
      → (finish env wf q).0.events
        ≡ q.0.events ++ closing (length wf.steps) q.0.token.reason (final_state q.1)
  unfolding finish final_state closing publish
  finish-events wf q = ground (arith, append-nil q.0.events)

  -- Every run follows a course. If the token is cancelled before the first step, all steps are
  -- cancelled. Otherwise, from the published start, steps are served while the token is not
  -- cancelled; then, if one failed for one of the four causes, steps are skipped while it is not; and
  -- if it is cancelled before a step, that step and the rest are cancelled. The state it returns is
  -- the one the course ends in.
  pub run-Course :
      (executors : Dict E) (wf : Workflow) (r : Run W)
      → RunCourse env executors wf r
          (run env executors wf r).1.state
          (run env executors wf r).1.step_results
  unfolding cancelled_before
  run-Course executors wf r = elim (List-cases wf.steps) [
    | inl e ↦ rw (run-empty executors wf r e) (
        admitted (inr e) (
          subst
            (λ steps.
              Course env executors (publish env (workflow_started (length wf.steps)) r) false steps
                WorkflowState.completed [])
            (sym e) all_done))
    | inr (step, steps, e) ↦ elim (Bool-cases r.token.is_cancelled) [
      | inl c ↦ rw (run-cancelled executors wf r e c) (refused c (λ n. ground (arith, e, n)))
      | inr c ↦
          rw (run-started executors wf r e c, finish-result wf _)
            (admitted (inl c) (loop-Course env executors wf.steps false none _).0)
    ]
  ]

  -- A run whose token is not cancelled at its start publishes its start, the events that each
  -- result determines, in order, and the event that closes its state, and nothing else.
  pub run-events :
      (executors : Dict E) (wf : Workflow) (r : Run W)
      → r.token.is_cancelled ≡ false
      → (reason : String) × ((run env executors wf r).0.events
          ≡ r.events
            ++ workflow_started (length wf.steps) ∷ []
            ++ rounds (run env executors wf r).1.step_results
            ++ closing (length wf.steps) reason (run env executors wf r).1.state)
  unfolding publish closing rounds
  run-events executors wf r c = elim (List-cases wf.steps) [
    | inl e ↦ rw (run-empty executors wf r e) ("", simp (e, append-nil))
    | inr (step, steps, e) ↦
        let q =
          loop env executors wf.steps false none
            (publish env (workflow_started (length wf.steps)) r) in
        rw (run-started executors wf r e c, finish-result wf q)
          (
            q.0.token.reason,
            simp (
              finish-events wf q,
              (loop-Course env executors wf.steps false none _).1,
              append_assoc,
            ),
          )
  ]
