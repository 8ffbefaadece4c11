-- ===== src/Workflow/Courses.antt =====
-- What the courses of a run of `WorkflowEngine.run` in src/shyam/workflow/engine.py say of its results.
use shyam.Base.{
  String, Bool, true, false, map, length, ◌≡◌, ◌≢◌, refl, ap, subst, List, [], ◌∷◌, ◌++◌, ◌⊎◌, inl,
  inr, All,
}
use shyam.Base.Dict.{Dict}
use shyam.Workflow.Engine.{Environment, Run, publish}
use shyam.Workflow.Models.{WorkflowStep, StepResult, Workflow, workflow_started}
use shyam.Workflow.Course.{
  cancelled_result, IsCut, nothing_left, cut, Course, all_done, gave_up, stopped, skip, serve, fail,
}
use shyam.Workflow.Results.{RunCourse, refused, admitted}
use shyam.Workflow.State.{WorkflowState, StepState}
use shyam.Workflow.Steps.{IsServed, IsFailed}

abbrev pub IsDone : StepResult → Type 0
IsDone x = x.state ≡ StepState.completed

abbrev pub IsUntried : StepResult → Type 0
IsUntried x = (x.state ≡ StepState.skipped) ⊎ (x.state ≡ StepState.cancelled)

abbrev pub Each : {A B : Type 0} → (A → B → Type 0) → List A → List B → Type 0
Each R [] [] = Unit
Each R (x ∷ xs) (y ∷ ys) = R x y × Each R xs ys
Each R _ _ = ⊥

-- A result that belongs to a step.
pub record IsResultOf (step : WorkflowStep) (x : StepResult) : Type 0 where
  pub step_id : x.step_id ≡ step.step_id
  pub capability : x.capability ≡ step.capability

-- Each step was served, from the run in which the one before it was completed.
abbrev pub AreServed :
    {W E : Type 0} → Environment W E → Dict E → Run W → List WorkflowStep → List StepResult → Type 0
AreServed env executors r [] [] = Unit
AreServed {W} env executors r (step ∷ steps) (x ∷ xs) =
    (after : Run W) × IsServed env executors step r x after × AreServed env executors after steps xs
AreServed env executors r _ _ = ⊥

untried-middle :
    (before after : List StepResult) (x : StepResult)
    → All IsUntried (before ++ x ∷ after)
    → x.state ≢ StepState.failed
untried-middle [] after x h f = elim h.0 [ inl s ↦ cc | inr c ↦ cc ]
untried-middle (y ∷ before) after x h f = untried-middle before after x h.1 f

mapped-labels :
    (reason : String) (steps : List WorkflowStep)
    → Each IsResultOf steps (map (λ step. cancelled_result step reason) steps)
mapped-labels reason [] = tt
mapped-labels reason (step ∷ steps) =
    (record { step_id = refl; capability = refl }, mapped-labels reason steps)

mapped-IsUntried :
    (reason : String) (steps : List WorkflowStep)
    → All IsUntried (map (λ step. cancelled_result step reason) steps)
mapped-IsUntried reason [] = tt
mapped-IsUntried reason (step ∷ steps) = (inr refl, mapped-IsUntried reason steps)

mapped-IsDone :
    (reason : String) (steps : List WorkflowStep)
    → steps ≢ []
    → ¬ All IsDone (map (λ step. cancelled_result step reason) steps)
mapped-IsDone reason [] n h = n refl
mapped-IsDone reason (step ∷ steps) n h = cc

module _ {W E : Type 0} {env : Environment W E} {executors : Dict E} where
  IsCut-labels :
      {r : Run W} {steps : List WorkflowStep} {xs : List StepResult}
      → IsCut env executors r steps xs
      → Each IsResultOf steps xs
  IsCut-labels nothing_left = tt
  IsCut-labels (cut step c) = (record { step_id = refl; capability = refl }, IsCut-labels c)

  cut-IsUntried :
      {r : Run W} {steps : List WorkflowStep} {xs : List StepResult}
      → IsCut env executors r steps xs
      → All IsUntried xs
  cut-IsUntried nothing_left = tt
  cut-IsUntried (cut step c) = (inr refl, cut-IsUntried c)

  IsCut-cases :
      {r : Run W} {step : WorkflowStep} {steps : List WorkflowStep} {xs : List StepResult}
      → IsCut env executors r (step ∷ steps) xs
      → ¬ All IsDone xs
  IsCut-cases (cut step c) h = cc

  served-IsDone :
      {r after : Run W} {step : WorkflowStep} {x : StepResult}
      → IsServed env executors step r x after
      → IsDone x
  served-IsDone s i = (s.result i).state

  served-eq :
      {r after : Run W} {step : WorkflowStep} {x : StepResult} (y : StepResult)
      → IsServed env executors step r x after
      → x ≡ y
      → IsDone y
  served-eq y s e = subst IsDone e (served-IsDone s)

  served-failed :
      {r after : Run W} {step : WorkflowStep} {x : StepResult} (y : StepResult)
      → IsServed env executors step r x after
      → x ≡ y
      → y.state ≢ StepState.failed
  served-failed y s e h = absurd (cc (served-IsDone s, ap (λ z. z.state) e))

  failed-IsDone :
      {r after : Run W} {step : WorkflowStep} {x : StepResult}
      → IsFailed env executors step r x after
      → ¬ IsDone x
  failed-IsDone f h = cc (ap (λ z. z.state) f.result, h)

  Course-labels :
      {r : Run W} {failed : Bool} {steps : List WorkflowStep} {state : WorkflowState}
      {xs : List StepResult}
      → Course env executors r failed steps state xs
      → Each IsResultOf steps xs
  Course-labels all_done = tt
  Course-labels gave_up = tt
  Course-labels (stopped t c) = IsCut-labels c
  Course-labels (skip step t c) = (record { step_id = refl; capability = refl }, Course-labels c)
  Course-labels (serve t s c) =
      (record { step_id = rw s.result refl; capability = rw s.result refl }, Course-labels c)
  Course-labels (fail t f c) =
      (record { step_id = rw f.result refl; capability = rw f.result refl }, Course-labels c)

  Course-IsUntried :
      {r : Run W} {steps : List WorkflowStep} {state : WorkflowState} {xs : List StepResult}
      → Course env executors r true steps state xs
      → All IsUntried xs × (state ≢ WorkflowState.completed)
  Course-IsUntried gave_up = (tt, λ h. cc)
  Course-IsUntried (stopped t c) = (cut-IsUntried c, λ h. cc)
  Course-IsUntried (skip step t c) =
      let (untried, unfinished) = Course-IsUntried c in ((inl refl, untried), unfinished)

  Course-completed :
      {r : Run W} {steps : List WorkflowStep} {state : WorkflowState} {xs : List StepResult}
      → Course env executors r false steps state xs
      → state ≡ WorkflowState.completed
      → AreServed env executors r steps xs
  Course-completed all_done h = tt
  Course-completed (stopped t c) h = absurd (cc)
  Course-completed (serve {after = after} t s c) h = (after, s, Course-completed c h)
  Course-completed (fail t f c) h = absurd ((Course-IsUntried c).1 h)

  done-completed :
      {r : Run W} {steps : List WorkflowStep} {state : WorkflowState} {xs : List StepResult}
      → Course env executors r false steps state xs
      → All IsDone xs
      → state ≡ WorkflowState.completed
  done-completed all_done h = refl
  done-completed (stopped t c) h = absurd (IsCut-cases c h)
  done-completed (serve t s c) h = done-completed c h.1
  done-completed (fail t f c) h = absurd (failed-IsDone f h.0)

  -- The results around the failed one.
  Course-failed :
      {r : Run W} {steps : List WorkflowStep} {state : WorkflowState} {xs : List StepResult}
      → Course env executors r false steps state xs
      → (before after : List StepResult) (x : StepResult) → xs ≡ before ++ x ∷ after
      → x.state ≡ StepState.failed
      → All IsDone before × All IsUntried after × (state ≢ WorkflowState.completed)
  Course-failed all_done [] after x e h = absurd (cc)
  Course-failed all_done (y ∷ before) after x e h = absurd (cc)
  Course-failed (stopped t c) before after x e h =
      absurd (untried-middle before after x (subst (All IsUntried) e (cut-IsUntried c)) h)
  Course-failed (serve t s c) [] after x e h = absurd (served-failed x s (cc) h)
  Course-failed (serve t s c) (y ∷ before) after x e h =
      let (done, untried, unfinished) = Course-failed c before after x (cc) h in
      ((served-eq y s (cc), done), untried, unfinished)
  Course-failed (fail t f c) [] after x e h =
      let (untried, unfinished) = Course-IsUntried c in
      (tt, subst (All IsUntried) (cc) untried, unfinished)
  Course-failed (fail t f c) (y ∷ before) after x e h =
      absurd (untried-middle before after x (subst (All IsUntried) (cc) (Course-IsUntried c).0) h)

  -- The same of a whole run.
  pub RunCourse-labels :
      {wf : Workflow} {r : Run W} {state : WorkflowState} {xs : List StepResult}
      → RunCourse env executors wf r state xs
      → Each IsResultOf wf.steps xs
  RunCourse-labels {wf} {r} (refused t n) = mapped-labels r.token.reason wf.steps
  RunCourse-labels (admitted a c) = Course-labels c

  pub RunCourse-completed :
      {wf : Workflow} {r : Run W} {state : WorkflowState} {xs : List StepResult}
      → RunCourse env executors wf r state xs
      → state ≡ WorkflowState.completed
      → AreServed env executors (publish env (workflow_started (length wf.steps)) r) wf.steps xs
  RunCourse-completed (refused t n) h = absurd (cc)
  RunCourse-completed (admitted a c) h = Course-completed c h

  pub RunCourse-done :
      {wf : Workflow} {r : Run W} {state : WorkflowState} {xs : List StepResult}
      → RunCourse env executors wf r state xs
      → All IsDone xs
      → state ≡ WorkflowState.completed
  RunCourse-done {wf} {r} (refused t n) h = absurd (mapped-IsDone r.token.reason wf.steps n h)
  RunCourse-done (admitted a c) h = done-completed c h

  pub RunCourse-failed :
      {wf : Workflow} {r : Run W} {state : WorkflowState} {xs : List StepResult}
      → RunCourse env executors wf r state xs
      → (before after : List StepResult) (x : StepResult) → xs ≡ before ++ x ∷ after
      → x.state ≡ StepState.failed
      → All IsDone before × All IsUntried after × (state ≢ WorkflowState.completed)
  RunCourse-failed {wf} {r} (refused t n) before after x e h = absurd (
      untried-middle before after x
        (subst (All IsUntried) e (mapped-IsUntried r.token.reason wf.steps)) h)
  RunCourse-failed (admitted a c) before after x e h = Course-failed c before after x e h

pub AreServed-IsDone :
    {W E : Type 0} (env : Environment W E) (executors : Dict E) (r : Run W)
    (steps : List WorkflowStep) (xs : List StepResult)
    → AreServed env executors r steps xs
    → All IsDone xs
AreServed-IsDone env executors r [] [] h = tt
AreServed-IsDone env executors r [] (x ∷ xs) h = elim h [ ]
AreServed-IsDone env executors r (step ∷ steps) [] h = elim h [ ]
AreServed-IsDone env executors r (step ∷ steps) (x ∷ xs) (after, s, h) =
    (served-IsDone s, AreServed-IsDone env executors after steps xs h)
