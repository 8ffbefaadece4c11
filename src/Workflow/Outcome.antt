-- ===== src/Workflow/Outcome.antt =====
-- The loop of `WorkflowEngine.run` in src/shyam/workflow/engine.py follows a course, and what it
-- publishes.
use mathlib.Core.List.{append_assoc, append-nil}
use shyam.Base.{
  String, ◌<>◌, Bool, true, false, ◌≡◌, refl, sym, ◌∙◌, Option, none, some, List, [], ◌∷◌, ◌++◌,
  inl, inr, Bool-cases, arith,
}
use shyam.Base.Dict.{Dict}
use shyam.Workflow.Engine.{Environment, Run, publish, execute_step}
use shyam.Workflow.Loop.{Progress, progress, prepend, cancel_remaining, after_step, loop}
use shyam.Workflow.Models.{
  WorkflowStep, StepResult, is_success, WorkflowEvent, workflow_failed, step_started, step_skipped,
}
use shyam.Workflow.State.{WorkflowState, StepState, step_state_discrete}
use shyam.Workflow.Steps.{IsServed, IsFailed, step_end, execute_step-IsExecuted}
use shyam.Workflow.Course.{
  skipped_result, failure_message, IsCut, nothing_left, cut, Course, all_done, gave_up, stopped,
  skip, serve, fail,
}

abbrev pub cancellation_text : Option String → String
cancellation_text none = "Workflow cancelled: "
cancellation_text (some reason) = "Workflow cancelled: " <> reason

-- The events of a round, read off the result it left.
unfoldable pub round : StepResult → List WorkflowEvent
round x = elim x.state [
  | StepState.completed ↦ step_started x.step_id x.capability none ∷ step_end x
  | StepState.failed ↦
      step_started x.step_id x.capability none ∷ step_end x
      ++ workflow_failed x.step_id (failure_message x) ∷ []
  | StepState.skipped ↦ step_skipped x.step_id x.capability "Prior step failed" ∷ []
  | StepState.cancelled ↦ step_skipped x.step_id x.capability (cancellation_text x.error) ∷ []
  | StepState.pending ↦ []
  | StepState.running ↦ []
]

unfoldable pub rounds : List StepResult → List WorkflowEvent
rounds [] = []
rounds (x ∷ xs) = round x ++ rounds xs

-- The state in which `run` ends after the loop.
unfoldable pub final_state : Progress → WorkflowState
final_state p = elim p.workflow_cancelled [
  | true ↦ WorkflowState.cancelled
  | false ↦ elim p.workflow_failed [ true ↦ WorkflowState.failed | false ↦ WorkflowState.completed ]
]

-- The events of a step that was served, between those before it and those after it.
joined_served :
    (before mid after rest end here : List WorkflowEvent) (start : WorkflowEvent)
    → mid ≡ before ++ start ∷ [] ++ end
    → here ≡ start ∷ end
    → after ≡ mid ++ rest
    → after ≡ before ++ (here ++ rest)
joined_served before mid after rest end here start m h a = simp (a, m, h, append_assoc)

joined_failed :
    (before mid after rest end here : List WorkflowEvent) (start failure : WorkflowEvent)
    → mid ≡ before ++ start ∷ [] ++ end
    → here ≡ start ∷ end ++ failure ∷ []
    → after ≡ mid ++ failure ∷ [] ++ rest
    → after ≡ before ++ (here ++ rest)
joined_failed before mid after rest end here start failure m h a = simp (a, m, h, append_assoc)

module _ {W E : Type 0} (env : Environment W E) where
  cancel_remaining-IsCut :
      (executors : Dict E) (steps : List WorkflowStep) (r : Run W)
      → IsCut env executors r steps (cancel_remaining env steps r).1
        × ((cancel_remaining env steps r).0.events
            ≡ r.events ++ rounds (cancel_remaining env steps r).1)
  unfolding cancel_remaining publish rounds round
  cancel_remaining-IsCut executors [] r = (nothing_left, sym (append-nil r.events))
  cancel_remaining-IsCut executors (step ∷ steps) r =
      let r' =
        publish env
          (step_skipped step.step_id step.capability ("Workflow cancelled: " <> r.token.reason))
          r in
      let (is_cut, traced) = cancel_remaining-IsCut executors steps r' in
      (cut step is_cut, traced ∙ append_assoc r.events _ _)

  loop-cancelled :
      (executors : Dict E) (step : WorkflowStep) (steps : List WorkflowStep) (failed : Bool)
      (error : Option String) (r : Run W)
      → r.token.is_cancelled ≡ true
      → loop env executors (step ∷ steps) failed error r ≡ (
        (cancel_remaining env (step ∷ steps) r).0,
        progress (cancel_remaining env (step ∷ steps) r).1 failed (some r.token.reason) true,
      )
  unfolding loop
  loop-cancelled executors step steps failed error r h = ground arith

  loop-skip :
      (executors : Dict E) (step : WorkflowStep) (steps : List WorkflowStep) (error : Option String)
      (r : Run W)
      → r.token.is_cancelled ≡ false
      → loop env executors (step ∷ steps) true error r ≡ (
          let rest =
            loop env executors steps true error
              (publish env (step_skipped step.step_id step.capability "Prior step failed") r) in
          (rest.0, prepend (skipped_result step) rest.1))
  unfolding loop
  loop-skip executors step steps error r h = ground arith

  loop-execute :
      (executors : Dict E) (step : WorkflowStep) (steps : List WorkflowStep) (error : Option String)
      (r : Run W)
      → r.token.is_cancelled ≡ false
      → loop env executors (step ∷ steps) false error r ≡ (
          let ran = execute_step env executors step r in
          let after = after_step env step ran error in
          let rest = loop env executors steps after.1 after.2 after.0 in
          (rest.0, prepend ran.1 rest.1))
  unfolding loop
  loop-execute executors step steps error r h = ground arith

  after_step-served :
      {executors : Dict E} {step : WorkflowStep} {before after : Run W} {x : StepResult} (r : Run W)
      (error : Option String)
      → IsServed env executors step before x after
      → after_step env step (r, x) error ≡ (r, false, error)
  unfolding after_step is_success step_state_discrete
  after_step-served r error s = rw s.result refl

  after_step-failed :
      {executors : Dict E} {step : WorkflowStep} {before after : Run W} {x : StepResult} (r : Run W)
      (error : Option String)
      → IsFailed env executors step before x after
      → after_step env step (r, x) error ≡ (
        publish env (workflow_failed step.step_id (failure_message x)) r,
        true,
        some (failure_message x),
      )
  unfolding after_step is_success step_state_discrete
  after_step-failed r error f = rw f.result refl

  round-served :
      {executors : Dict E} {step : WorkflowStep} {before after : Run W} {x : StepResult}
      → IsServed env executors step before x after
      → round x ≡ step_started step.step_id step.capability none ∷ step_end x
  unfolding round
  round-served s = rw s.result refl

  round-failed :
      {executors : Dict E} {step : WorkflowStep} {before after : Run W} {x : StepResult}
      → IsFailed env executors step before x after
      → round x
        ≡ step_started step.step_id step.capability none ∷ step_end x
          ++ workflow_failed step.step_id (failure_message x) ∷ []
  unfolding round
  round-failed f = rw f.result refl

  -- What a run leaves follows a course of its steps, and the events are those of the results.
  abbrev Follows : Dict E → Bool → List WorkflowStep → Run W → Run W × Progress → Type 0
  Follows executors failed steps before (r, p) =
      Course env executors before failed steps (final_state p) p.results
      × (r.events ≡ before.events ++ rounds p.results)

  loop-stopped :
      (executors : Dict E) (step : WorkflowStep) (steps : List WorkflowStep) (failed : Bool)
      (error : Option String) (r : Run W)
      → r.token.is_cancelled ≡ true
      → Follows executors failed (step ∷ steps) r (loop env executors (step ∷ steps) failed error r)
  unfolding final_state
  loop-stopped executors step steps failed error r h =
      let (is_cut, traced) = cancel_remaining-IsCut executors (step ∷ steps) r in
      rw (loop-cancelled executors step steps failed error r h) (stopped h is_cut, traced)

  -- The loop follows a course of the steps that are left, and publishes the events of its results.
  pub loop-Course :
      (executors : Dict E) (steps : List WorkflowStep) (failed : Bool) (error : Option String)
      (r : Run W)
      → Follows executors failed steps r (loop env executors steps failed error r)
  unfolding loop final_state publish rounds round
  loop-Course executors [] false error r = (all_done, sym (append-nil r.events))
  loop-Course executors [] true error r = (gave_up, sym (append-nil r.events))
  loop-Course executors (step ∷ steps) true error r = elim (Bool-cases r.token.is_cancelled) [
    | inl c ↦ loop-stopped executors step steps true error r c
    | inr c ↦
        let (course, traced) =
          loop-Course executors steps true error
            (publish env (step_skipped step.step_id step.capability "Prior step failed") r) in
        rw (loop-skip executors step steps error r c)
          (skip step c course, traced ∙ append_assoc r.events _ _)
  ]
  loop-Course executors (step ∷ steps) false error r = elim (Bool-cases r.token.is_cancelled) [
    | inl c ↦ loop-stopped executors step steps false error r c
    | inr c ↦
        let ran = execute_step env executors step r in
        let executed = execute_step-IsExecuted env executors step r in
        rw (loop-execute executors step steps error r c) (elim executed.outcome [
          | inl s ↦
              let (course, traced) = loop-Course executors steps false error ran.0 in
              rw (after_step-served ran.0 error s) (
                serve c s course,
                joined_served r.events _ _ _ _ _ _ executed.published (round-served s) traced,
              )
          | inr f ↦
              let (course, traced) =
                loop-Course executors steps true (some (failure_message ran.1))
                  (publish env (workflow_failed step.step_id (failure_message ran.1)) ran.0) in
              rw (after_step-failed ran.0 error f) (
                fail c f course,
                joined_failed r.events _ _ _ _ _ _ _ executed.published (round-failed f) traced,
              )
        ])
  ]
