-- ===== src/Context/Runs.antt =====
-- src/shyam/context over the events of src/shyam/workflow/engine.py.
use mathlib.Core.List.{append_assoc}
use shyam.Base.{
  ℕ, String, Bool, true, false, ◌||◌, ◌≡◌, ◌⊎◌, refl, sym, ◌∙◌, ap, ap₂, Option, none, some, List,
  [], ◌∷◌, ◌++◌, any, map, inl, inr, Bool-cases, arith, length,
}
use shyam.Base.Dict
use shyam.Base.Dict.{Dict, get-put, get-pop}
use shyam.Context.Models.{ActiveWorkItem}
use shyam.Context.Service.{on_workflow_event}
use shyam.Context.Store.{
  EcosystemStateStore, log_activity, put_work, pop_work, on_workflow_started, on_workflow_completed,
  on_workflow_failed, on_workflow_cancelled, with_target, on_step_started,
}
use shyam.Workflow.Models.{
  WorkflowEvent, workflow_started, workflow_completed, workflow_failed, workflow_cancelled,
  step_started, step_completed, step_failed, step_skipped, Workflow, WorkflowStep, StepResult,
}
use shyam.Navigation.Models.{NavigationCandidate}
use shyam.Workflow.Engine.{Environment, Run}
use shyam.Workflow.Loop.{run}
use shyam.Workflow.Course.{Course, all_done, gave_up, stopped, skip, serve, fail}
use shyam.Workflow.Outcome.{round, rounds}
use shyam.Workflow.Results.{closing, run-events, RunCourse, refused, admitted, run-Course}
use shyam.Workflow.State.{WorkflowState}
use shyam.Workflow.Steps.{IsFailed, step_end}

-- The handling of timed events of one workflow, in the order in which they were published.
unfoldable pub hear :
    String → String → List (ℕ × WorkflowEvent) → EcosystemStateStore → EcosystemStateStore
unfolding on_workflow_event
hear id name [] s = s
hear id name ((at, e) ∷ es) s = hear id name es (on_workflow_event id name at e s)

unfoldable pub is_start : WorkflowEvent → Bool
is_start e = elim e [ workflow_started _ ↦ true | _ ↦ false ]

unfoldable pub is_end : WorkflowEvent → Bool
is_end e = elim e [
  | workflow_completed _ ↦ true
  | workflow_failed _ _ ↦ true
  | workflow_cancelled _ ↦ true
  | _ ↦ false
]

module _ {V : Type 0} (k : String) where
  pop-put : (v : V) (d : Dict V) → Dict.pop k (Dict.put k v d) ≡ Dict.pop k d
  unfolding Dict.pop Dict.put
  pop-put v [] = ground arith
  pop-put v ((j, w) ∷ d) = ground (arith, pop-put v d)

  pop-pop : (d : Dict V) → Dict.pop k (Dict.pop k d) ≡ Dict.pop k d
  unfolding Dict.pop
  pop-pop [] = refl
  pop-pop ((j, w) ∷ d) = ground (arith, pop-pop d)

get-absent : (id : String) (d : Dict ActiveWorkItem) → Dict.pop id d ≡ d → Dict.get id d ≡ none
get-absent id d p = ground (arith, ap (Dict.get id) p, get-pop id id d)

with_target-others :
    (id : String) (t : NavigationCandidate) (o : Option ActiveWorkItem) (s : EcosystemStateStore)
    → Dict.pop id (with_target id t o s).active_work ≡ Dict.pop id s.active_work
unfolding with_target put_work
with_target-others id t none s = refl
with_target-others id t (some item) s = grind (arith, pop-put)

-- An event of the workflow leaves the other work alone.
event-others :
    (id name : String) (at : ℕ) (e : WorkflowEvent) (s : EcosystemStateStore)
    → Dict.pop id (on_workflow_event id name at e s).active_work ≡ Dict.pop id s.active_work
unfolding on_workflow_event on_workflow_started on_workflow_completed on_workflow_failed
    on_workflow_cancelled on_step_started with_target put_work pop_work log_activity
event-others id name at (workflow_started n) s = pop-put id _ s.active_work
event-others id name at (workflow_completed n) s = grind (arith, pop-put, pop-pop)
event-others id name at (workflow_failed _ _) s = pop-pop id s.active_work
event-others id name at (workflow_cancelled _) s = pop-pop id s.active_work
event-others id name at (step_started _ _ none) s = refl
event-others id name at (step_started _ _ (some t)) s =
    with_target-others id t (Dict.get id s.active_work) s
event-others id name at (step_completed _ _ _ _) s = refl
event-others id name at (step_failed _ _ _) s = refl
event-others id name at (step_skipped _ _ _) s = refl

pub event-end :
    (id name : String) (at : ℕ) (e : WorkflowEvent) (s : EcosystemStateStore)
    → is_end e ≡ true
    → (on_workflow_event id name at e s).active_work ≡ Dict.pop id s.active_work
unfolding on_workflow_event on_workflow_completed on_workflow_failed on_workflow_cancelled pop_work
    put_work log_activity is_end
event-end id name at (workflow_started n) s h = cc
event-end id name at (workflow_completed n) s h = grind (arith, pop-put, pop-pop)
event-end id name at (workflow_failed _ _) s h = refl
event-end id name at (workflow_cancelled _) s h = refl
event-end id name at (step_started _ _ _) s h = cc
event-end id name at (step_completed _ _ _ _) s h = cc
event-end id name at (step_failed _ _ _) s h = cc
event-end id name at (step_skipped _ _ _) s h = cc

-- With no item of the workflow, only a start adds one.
event-idle :
    (id name : String) (at : ℕ) (e : WorkflowEvent) (s : EcosystemStateStore)
    → is_start e ≡ false
    → Dict.pop id s.active_work ≡ s.active_work
    → (on_workflow_event id name at e s).active_work ≡ s.active_work
unfolding on_workflow_event on_workflow_completed on_workflow_failed on_workflow_cancelled pop_work
    put_work log_activity is_start on_step_started with_target is_end
event-idle id name at (workflow_started n) s h p = cc
event-idle id name at (workflow_completed n) s h p =
    event-end id name at (workflow_completed n) s refl ∙ p
event-idle id name at (workflow_failed _ _) s h p = p
event-idle id name at (workflow_cancelled _) s h p = p
event-idle id name at (step_started _ _ none) s h p = refl
event-idle id name at (step_started _ _ (some t)) s h p = rw (get-absent id s.active_work p) refl
event-idle id name at (step_completed _ _ _ _) s h p = refl
event-idle id name at (step_failed _ _ _) s h p = refl
event-idle id name at (step_skipped _ _ _) s h p = refl

abbrev pub told : List (ℕ × WorkflowEvent) → List WorkflowEvent
told = map (λ e. e.1)

hear-idle :
    (id name : String) (es : List (ℕ × WorkflowEvent)) (s : EcosystemStateStore)
    → any is_start (told es) ≡ false
    → Dict.pop id s.active_work ≡ s.active_work
    → (hear id name es s).active_work ≡ s.active_work
unfolding hear
hear-idle id name [] s n p = refl
hear-idle id name ((at, e) ∷ es) s n p =
    let same = event-idle id name at e s (ground arith) p in
    hear-idle id name es (on_workflow_event id name at e s) (ground arith)
      (ap (Dict.pop id) same ∙ p ∙ sym same)
    ∙ same

-- Events without a start, one of which ends the workflow, take its item out and no other.
hear-ended :
    (id name : String) (es : List (ℕ × WorkflowEvent)) (s : EcosystemStateStore)
    → any is_start (told es) ≡ false
    → any is_end (told es) ≡ true
    → (hear id name es s).active_work ≡ Dict.pop id s.active_work
unfolding hear
hear-ended id name [] s n h = cc
hear-ended id name ((at, e) ∷ es) s n h = elim (Bool-cases (is_end e)) [
  | inl end ↦
      let out = event-end id name at e s end in
      hear-idle id name es (on_workflow_event id name at e s) (ground arith)
        (ap (Dict.pop id) out ∙ pop-pop id s.active_work ∙ sym out)
      ∙ out
  | inr other ↦
      hear-ended id name es (on_workflow_event id name at e s) (ground arith) (ground arith)
      ∙ event-others id name at e s
]

-- What the events of a run look like.
pub any-append :
    {A : Type 0} (p : A → Bool) (xs ys : List A) → any p (xs ++ ys) ≡ any p xs || any p ys
any-append p [] ys = refl
any-append p (x ∷ xs) ys = ground (arith, any-append p xs ys)

round-no_start : (x : StepResult) → any is_start (round x) ≡ false
unfolding round step_end is_start
round-no_start x = ground arith

rounds-no_start : (xs : List StepResult) → any is_start (rounds xs) ≡ false
unfolding rounds
rounds-no_start [] = refl
rounds-no_start (x ∷ xs) =
    ground (arith, any-append is_start (round x) (rounds xs), round-no_start x, rounds-no_start xs)

closing-no_start :
    (n : ℕ) (reason : String) (state : WorkflowState)
    → any is_start (closing n reason state) ≡ false
unfolding closing is_start
closing-no_start n reason state = ground arith

failed-end :
    {W E : Type 0} {env : Environment W E} {executors : Dict E} {step : WorkflowStep}
    {r after : Run W} {x : StepResult}
    → IsFailed env executors step r x after
    → any is_end (round x) ≡ true
unfolding round step_end is_end
failed-end f = rw f.result refl

rounds-end :
    (x : StepResult) (xs : List StepResult) (end : List WorkflowEvent)
    → (any is_end (round x) ≡ true) ⊎ (any is_end (rounds xs ++ end) ≡ true)
    → any is_end (rounds (x ∷ xs) ++ end) ≡ true
unfolding rounds
rounds-end x xs end h = ground (
  arith,
  any-append is_end (round x ++ rounds xs) end,
  any-append is_end (round x) (rounds xs),
  any-append is_end (rounds xs) end,
)

cancelled-has_end :
    (n : ℕ) (reason : String) (xs : List StepResult)
    → any is_end (rounds xs ++ closing n reason WorkflowState.cancelled) ≡ true
unfolding closing is_end
cancelled-has_end n reason xs =
    ground (arith, any-append is_end (rounds xs) (workflow_cancelled reason ∷ []))

-- A run ends its workflow in the eyes of the store.
module _ {W E : Type 0} {env : Environment W E} {executors : Dict E} where
  Course-has_end :
      {r : Run W} {failed : Bool} {steps : List WorkflowStep} {state : WorkflowState}
      {xs : List StepResult} (n : ℕ) (reason : String)
      → Course env executors r failed steps state xs
      → failed ≡ false
      → any is_end (rounds xs ++ closing n reason state) ≡ true
  unfolding rounds closing is_end
  Course-has_end n reason all_done h = refl
  Course-has_end n reason gave_up h = cc
  Course-has_end n reason (stopped {xs = xs} t c) h = cancelled-has_end n reason xs
  Course-has_end n reason (skip step t c) h = cc
  Course-has_end n reason (serve {state = state} {xs = xs} {x = x} t s c) h =
      rounds-end x xs _ (inr (Course-has_end n reason c refl))
  Course-has_end n reason (fail {state = state} {xs = xs} {x = x} t f c) h =
      rounds-end x xs _ (inl (failed-end f))

  RunCourse-has_end :
      {wf : Workflow} {r : Run W} {state : WorkflowState} {xs : List StepResult} (n : ℕ)
      (reason : String)
      → RunCourse env executors wf r state xs
      → any is_end (rounds xs ++ closing n reason state) ≡ true
  RunCourse-has_end n reason (refused t e) = cancelled-has_end n reason _
  RunCourse-has_end n reason (admitted a c) = Course-has_end n reason c refl

module _ {W E : Type 0} (env : Environment W E) (executors : Dict E) (wf : Workflow) (r : Run W)
    (fresh : r.events ≡ []) (uncancelled : r.token.is_cancelled ≡ false) where
  abbrev pub after_start : String → List WorkflowEvent
  after_start reason =
      rounds (run env executors wf r).1.step_results
      ++ closing (length wf.steps) reason (run env executors wf r).1.state

  pub run-after_start :
      (reason : String) × ((run env executors wf r).0.events
        ≡ workflow_started (length wf.steps) ∷ after_start reason)
  unfolding after_start
  run-after_start =
      let (reason, traced) = run-events env executors wf r uncancelled in
      (reason, simp (traced, fresh, append_assoc))

  run-well_told :
      (es : List (ℕ × WorkflowEvent)) {e : WorkflowEvent}
      → e ∷ told es ≡ (run env executors wf r).0.events
      → (any is_start (told es) ≡ false) × (any is_end (told es) ≡ true)
  unfolding after_start
  run-well_told es {e = e} h =
      let (reason, traced) = run-after_start in
      let results = (run env executors wf r).1.step_results in
      let state = (run env executors wf r).1.state in
      let rest : told es ≡ after_start reason = cc in
      (
        ap (any is_start) rest
            ∙ any-append is_start (rounds results) (closing (length wf.steps) reason state)
            ∙ ap₂ ◌||◌ (rounds-no_start results) (closing-no_start (length wf.steps) reason state),
        ap (any is_end) rest
            ∙ RunCourse-has_end (length wf.steps) reason (run-Course env executors wf r),
      )

  -- When the store has handled the events of a run, in order, the workflow is no longer among the
  -- active work, and the other active work is as it was.
  pub run-forgotten :
      (es : List (ℕ × WorkflowEvent)) (s : EcosystemStateStore)
      → told es ≡ (run env executors wf r).0.events
      → (hear wf.workflow_id wf.name es s).active_work ≡ Dict.pop wf.workflow_id s.active_work
  unfolding hear
  run-forgotten [] s h = cc run-after_start.1
  run-forgotten ((at, e) ∷ es) s h =
      let (quiet, ended) = run-well_told es h in
      hear-ended wf.workflow_id wf.name es (on_workflow_event wf.workflow_id wf.name at e s) quiet
        ended
      ∙ event-others wf.workflow_id wf.name at e s
