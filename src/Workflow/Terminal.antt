-- ===== src/Workflow/Terminal.antt =====
-- The states and events in which a run of `WorkflowEngine.run` in src/shyam/workflow/engine.py ends,
-- against the transition tables of src/shyam/workflow/state.py.
use mathlib.Core.List.{mem-append_left, mem-append_right, Mem, mem-cons_self, mem-cons_of_mem}
use shyam.Base.{
  String, Bool, true, false, ◌||◌, ◌≡◌, refl, sym, subst, none, List, [], ◌∷◌, ◌++◌, arith, All,
  length, map,
}
use shyam.Base.Dict.{Dict}
use shyam.Workflow.Engine.{Environment, Run}
use shyam.Workflow.Loop.{run}
use shyam.Workflow.Models.{
  WorkflowStep, StepResult, Workflow, WorkflowEvent, workflow_failed, workflow_cancelled,
  workflow_started, step_started,
}
use shyam.Workflow.Course.{
  cancelled_result, IsCut, nothing_left, cut, Course, all_done, gave_up, stopped, skip, serve, fail,
  failure_message,
}
use shyam.Workflow.Outcome.{rounds, round}
use shyam.Workflow.Results.{RunCourse, refused, admitted, run-Course, run-events, closing}
use shyam.Workflow.State.{
  WorkflowState, StepState, validate_workflow_transition, validate_step_transition,
  valid_workflow_transitions, valid_step_transitions, workflow_state_discrete, step_state_discrete,
}
use shyam.Workflow.Steps.{step_end}

-- The step states that a run gives to a step, from `PENDING` or from `RUNNING`.
unfoldable pub settles : StepState → Bool
unfolding validate_step_transition
settles state =
    validate_step_transition StepState.pending state
    || validate_step_transition StepState.running state

-- The tables let a run end in its state, and let each step reach its own.
abbrev pub IsSettled : WorkflowState → List StepResult → Type 0
IsSettled state xs =
    (validate_workflow_transition WorkflowState.running state ≡ true)
    × All (λ x. settles x.state ≡ true) xs

mapped-settled :
    (reason : String) (steps : List WorkflowStep)
    → All (λ x. settles x.state ≡ true) (map (λ step. cancelled_result step reason) steps)
unfolding settles validate_step_transition valid_step_transitions step_state_discrete
mapped-settled reason [] = tt
mapped-settled reason (step ∷ steps) = (refl, mapped-settled reason steps)

module _ {W E : Type 0} {env : Environment W E} {executors : Dict E} where
  IsCut-settled :
      {r : Run W} {steps : List WorkflowStep} {xs : List StepResult}
      → IsCut env executors r steps xs
      → All (λ x. settles x.state ≡ true) xs
  unfolding settles validate_step_transition valid_step_transitions step_state_discrete
  IsCut-settled nothing_left = tt
  IsCut-settled (cut step c) = (refl, IsCut-settled c)

  Course-IsSettled :
      {r : Run W} {failed : Bool} {steps : List WorkflowStep} {state : WorkflowState}
      {xs : List StepResult}
      → Course env executors r failed steps state xs
      → IsSettled state xs
  unfolding settles validate_step_transition validate_workflow_transition valid_step_transitions
      valid_workflow_transitions step_state_discrete workflow_state_discrete
  Course-IsSettled all_done = (refl, tt)
  Course-IsSettled gave_up = (refl, tt)
  Course-IsSettled (stopped t c) = (refl, IsCut-settled c)
  Course-IsSettled (skip step t c) = let (ends, rest) = Course-IsSettled c in (ends, (refl, rest))
  Course-IsSettled (serve t s c) =
      let (ends, rest) = Course-IsSettled c in (ends, (rw s.result refl, rest))
  Course-IsSettled (fail t f c) =
      let (ends, rest) = Course-IsSettled c in (ends, (rw f.result refl, rest))

  RunCourse-IsSettled :
      {wf : Workflow} {r : Run W} {state : WorkflowState} {xs : List StepResult}
      → RunCourse env executors wf r state xs
      → IsSettled state xs
  unfolding validate_workflow_transition valid_workflow_transitions workflow_state_discrete
  RunCourse-IsSettled {wf} {r} (refused t n) = (refl, mapped-settled r.token.reason wf.steps)
  RunCourse-IsSettled (admitted a c) = Course-IsSettled c

mem-rounds :
    (e : WorkflowEvent) (before after : List StepResult) (x : StepResult)
    → Mem e (round x)
    → Mem e (rounds (before ++ x ∷ after))
unfolding rounds
mem-rounds e [] after x m = mem-append_left (rounds after) m
mem-rounds e (y ∷ before) after x m = mem-append_right (round y) (mem-rounds e before after x m)

round-at_failed :
    (x : StepResult)
    → x.state ≡ StepState.failed
    → round x
      ≡ step_started x.step_id x.capability none ∷ step_end x
        ++ workflow_failed x.step_id (failure_message x) ∷ []
unfolding round
round-at_failed x h = ground arith

failed-round :
    (x : StepResult)
    → x.state ≡ StepState.failed
    → Mem (workflow_failed x.step_id (failure_message x)) (round x)
failed-round x h =
    rw (round-at_failed x h) (mem-cons_of_mem _ (mem-append_right (step_end x) mem-cons_self))

module _ {W E : Type 0} (env : Environment W E) (executors : Dict E) (wf : Workflow)
    (r : Run W) where
  -- The run ends in a state that the table lets RUNNING go to, and each step in one that the table
  -- lets PENDING or RUNNING go to.
  run-IsSettled : IsSettled (run env executors wf r).1.state (run env executors wf r).1.step_results
  run-IsSettled = RunCourse-IsSettled (run-Course env executors wf r)

  -- A run whose token is not cancelled at its start, with a failed step, that ends CANCELLED,
  -- publishes both WorkflowFailedEvent and WorkflowCancelledEvent.
  pub run-ends_twice :
      (before after : List StepResult) (x : StepResult)
      → r.token.is_cancelled ≡ false
      → (run env executors wf r).1.step_results ≡ before ++ x ∷ after
      → x.state ≡ StepState.failed
      → (run env executors wf r).1.state ≡ WorkflowState.cancelled
      → Mem (workflow_failed x.step_id (failure_message x)) (run env executors wf r).0.events
        × ((reason : String) × Mem (workflow_cancelled reason) (run env executors wf r).0.events)
  unfolding closing
  run-ends_twice before after x c e f h =
      let (reason, traced) = run-events env executors wf r c in
      let begun = r.events ++ workflow_started (length wf.steps) ∷ [] in
      let published : (run env executors wf r).0.events
          ≡ begun ++ rounds (before ++ x ∷ after) ++ workflow_cancelled reason ∷ [] =
        simp (traced, e, h) in
      (
        subst (Mem _) (sym published) (
            mem-append_left (workflow_cancelled reason ∷ [])
              (mem-append_right begun (mem-rounds _ before after x (failed-round x f)))),
        (
          reason,
          subst (Mem _) (sym published)
              (mem-append_right (begun ++ rounds (before ++ x ∷ after)) mem-cons_self),
        ),
      )
