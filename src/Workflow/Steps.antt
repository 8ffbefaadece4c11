-- ===== src/Workflow/Steps.antt =====
-- What `_execute_step` of src/shyam/workflow/engine.py returns and publishes.
use shyam.Base.{
  String, ◌<>◌, ◌≡◌, refl, Option, none, some, List, [], ◌∷◌, ◌++◌, ◌⊎◌, inl, inr, Option-cases,
}
use shyam.Base.Dict.{Dict}
use shyam.Navigation.Models.{NavigationRequest, NavigationCandidate, NavigationResult}
use shyam.Values.{Value}
use shyam.Workflow.Engine.{
  cancel_all, or_text, Attempt, returned, raised, Environment, Run, step_result, publish, fail_step,
  conclude_step, dispatch, on_navigation, execute_step,
}
use shyam.Workflow.Executors.{executor_for}
use shyam.Workflow.Models.{
  WorkflowStep, StepResult, WorkflowEvent, step_started, step_completed, step_failed,
}
use shyam.Workflow.State.{StepState}

-- The request of a step to the navigator.
abbrev pub request_of : WorkflowStep → NavigationRequest
request_of step = record { capability = step.capability; constraints = step.constraints }

module _ {W E : Type 0} (env : Environment W E) where
  -- The run when the start of the step is published, and what the navigator then answers.
  abbrev pub begun : WorkflowStep → Run W → Run W
  begun step r = publish env (step_started step.step_id step.capability none) r

  abbrev pub answer_to : WorkflowStep → Run W → Attempt NavigationResult × W × List String
  answer_to step r = env.navigator (request_of step) (begun step r).world

  abbrev pub navigated : WorkflowStep → Run W → Run W
  navigated step r =
      let (_, w, reasons) = answer_to step r in
      record (begun step r) { world = w; token = cancel_all reasons (begun step r).token }

  -- What the provider behind the executor then answers for a target, and the run after that.
  abbrev pub output_for :
      E → NavigationCandidate → WorkflowStep → Run W → Attempt Value × W × List String
  output_for executor target step r =
      env.execute executor target step.input_data (navigated step r).world

  abbrev pub executed : E → NavigationCandidate → WorkflowStep → Run W → Run W
  executed executor target step r =
      let (_, w, reasons) = output_for executor target step r in
      record (navigated step r) { world = w; token = cancel_all reasons (navigated step r).token }

  -- The navigator, asked for the step, chose a target.
  pub record IsAimed (step : WorkflowStep) (r : Run W) (target : NavigationCandidate) : Type 0 where
    pub answer : NavigationResult
    pub answered : (answer_to step r).0 ≡ returned answer
    pub selected : answer.selected ≡ some target

  -- From one run to the next, the step was completed: at the target that the navigator chose, whose
  -- provider has an executor, which returned the output.
  pub record IsServed (executors : Dict E) (step : WorkflowStep) (r : Run W) (x : StepResult)
      (after : Run W) : Type 0 where
    pub target : NavigationCandidate
    pub output : Value
    pub executor : E
    pub aimed : IsAimed step r target
    pub registered : executor_for target.provider_id executors ≡ some executor
    pub returns : (output_for executor target step r).0 ≡ returned output
    pub result : x ≡ step_result step StepState.completed (some target) (some output) none
    pub next :
        after
        ≡ publish env
            (step_completed step.step_id step.capability target output)
            (executed executor target step r)

  -- Why a step fails: the target that was chosen, if any, the error, and the run it is noticed in.
  pub data IsCause (executors : Dict E) (step : WorkflowStep) (r : Run W)
      : Option NavigationCandidate → String → Run W → Type 0 where
    navigator_raised :
        (error : String)
        → (answer_to step r).0 ≡ raised error
        → IsCause executors step r none ("Navigator invocation error: " <> error) (navigated step r)
    no_target :
        (answer : NavigationResult)
        → (answer_to step r).0 ≡ returned answer
        → answer.selected ≡ none
        → IsCause executors step r none
            ("Navigation failed to resolve target: "
              <> or_text answer.reason "No eligible candidate available")
            (navigated step r)
    no_executor :
        (target : NavigationCandidate)
        → IsAimed step r target
        → executor_for target.provider_id executors ≡ none
        → IsCause executors step r
            (some target)
            ("No executor available for provider '" <> target.provider_id <> "'")
            (navigated step r)
    provider_raised :
        (target : NavigationCandidate) (executor : E) (error : String)
        → IsAimed step r target
        → executor_for target.provider_id executors ≡ some executor
        → (output_for executor target step r).0 ≡ raised error
        → IsCause executors step r (some target) error (executed executor target step r)

  pub record IsFailed (executors : Dict E) (step : WorkflowStep) (r : Run W) (x : StepResult)
      (after : Run W) : Type 0 where
    pub target : Option NavigationCandidate
    pub error : String
    pub noticed : Run W
    pub cause : IsCause executors step r target error noticed
    pub result : x ≡ step_result step StepState.failed target none (some error)
    pub next : after ≡ publish env (step_failed step.step_id step.capability error) noticed

-- The event that ends a step, read off its result.
unfoldable pub step_end : StepResult → List WorkflowEvent
step_end x = elim x.error [
  | some error ↦ step_failed x.step_id x.capability error ∷ []
  | none ↦ elim x.target [
    | none ↦ []
    | some target ↦ elim x.output [
      | none ↦ []
      | some output ↦ step_completed x.step_id x.capability target output ∷ []
    ]
  ]
]

-- What `_execute_step` is to do: from a run to the next, with the result of the step.
pub record IsExecuted {W E : Type 0} (env : Environment W E) (executors : Dict E)
    (step : WorkflowStep) (r : Run W) (x : StepResult) (after : Run W) : Type 0 where
  pub outcome : IsServed env executors step r x after ⊎ IsFailed env executors step r x after
  pub published :
      after.events ≡ (r.events ++ step_started step.step_id step.capability none ∷ []) ++ step_end x

module _ {W E : Type 0} (env : Environment W E) (executors : Dict E) (step : WorkflowStep)
    (r : Run W) where
  fail_step-IsExecuted :
      (target : Option NavigationCandidate) (error : String) (noticed : Run W)
      → IsCause env executors step r target error noticed
      → noticed.events ≡ (begun env step r).events
      → IsExecuted env executors step r
          (fail_step env step target error noticed).1
          (fail_step env step target error noticed).0
  unfolding fail_step publish step_end
  fail_step-IsExecuted target error noticed c e = record {
    outcome = inr (record {
      target = target;
      error = error;
      noticed = noticed;
      cause = c;
      result = refl;
      next = refl;
    });
    published = rw e refl;
  }

  conclude_step-IsExecuted :
      (target : NavigationCandidate) (executor : E) (answer : Attempt Value)
      → IsAimed env step r target
      → executor_for target.provider_id executors ≡ some executor
      → (output_for env executor target step r).0 ≡ answer
      → IsExecuted env executors step r
          (conclude_step env step target answer (executed env executor target step r)).1
          (conclude_step env step target answer (executed env executor target step r)).0
  unfolding conclude_step publish step_end
  conclude_step-IsExecuted target executor (returned output) a h e = record {
    outcome = inl (record {
      target = target;
      output = output;
      executor = executor;
      aimed = a;
      registered = h;
      returns = e;
      result = refl;
      next = refl;
    });
    published = refl;
  }
  conclude_step-IsExecuted target executor (raised error) a h e =
      fail_step-IsExecuted (some target) error (executed env executor target step r)
        (provider_raised target executor error a h e) refl

  dispatch-IsExecuted :
      (target : NavigationCandidate) (o : Option E)
      → IsAimed env step r target
      → executor_for target.provider_id executors ≡ o
      → IsExecuted env executors step r
          (dispatch env step target o (navigated env step r)).1
          (dispatch env step target o (navigated env step r)).0
  unfolding dispatch
  dispatch-IsExecuted target none a h =
      fail_step-IsExecuted (some target) _ (navigated env step r) (no_executor target a h) refl
  dispatch-IsExecuted target (some executor) a h =
      conclude_step-IsExecuted target executor (output_for env executor target step r).0 a h refl

  on_navigation-IsExecuted :
      (answer : Attempt NavigationResult)
      → (answer_to env step r).0 ≡ answer
      → IsExecuted env executors step r
          (on_navigation env executors step answer (navigated env step r)).1
          (on_navigation env executors step answer (navigated env step r)).0
  unfolding on_navigation
  on_navigation-IsExecuted (raised error) e =
      fail_step-IsExecuted none _ (navigated env step r) (navigator_raised error e) refl
  on_navigation-IsExecuted (returned answer) e = elim (Option-cases answer.selected) [
    | inl n ↦ rw n (fail_step-IsExecuted none _ (navigated env step r) (no_target answer e n) refl)
    | inr (target, t) ↦ rw t (
        dispatch-IsExecuted target (executor_for target.provider_id executors)
          (record { answer = answer; answered = e; selected = t }) refl)
  ]

  -- Executing a step publishes its start and its end; it completes the step with what the executor
  -- for the navigator's target returned, or fails it for one of the four causes.
  pub execute_step-IsExecuted :
      IsExecuted env executors step r
        (execute_step env executors step r).1
        (execute_step env executors step r).0
  unfolding execute_step
  execute_step-IsExecuted = on_navigation-IsExecuted (answer_to env step r).0 refl
