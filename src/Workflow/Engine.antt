-- ===== src/Workflow/Engine.antt =====
-- src/shyam/workflow/engine.py. What the engine awaits is an `Environment`: the navigator, the
-- provider behind an executor and the subscribers of the event bus. Each takes the state of the world
-- and returns the new one, with the reasons of the calls of `token.cancel` made in the meantime, in
-- order.
use shyam.Base.{
  String, ◌<>◌, Bool, true, false, Option, none, some, List, [], ◌∷◌, ◌++◌, ite, str_discrete,
}
use shyam.Base.Dict.{Dict}
use shyam.Navigation.Models.{NavigationRequest, NavigationCandidate, NavigationResult}
use shyam.Values.{Value}
use shyam.Workflow.Executors.{executor_for}
use shyam.Workflow.Models.{
  WorkflowStep, StepResult, WorkflowEvent, step_started, step_completed, step_failed,
}
use shyam.Workflow.State.{StepState}

-- `WorkflowCancellationToken`
pub record Token : Type 0 where
  pub is_cancelled : Bool
  pub reason : String

abbrev pub new_token : Token
new_token = record { is_cancelled = false; reason = "" }

unfoldable pub cancel : String → Token → Token
cancel reason t = record { is_cancelled = true; reason = reason }

unfoldable pub cancel_all : List String → Token → Token
unfolding cancel
cancel_all [] t = t
cancel_all (reason ∷ reasons) t = cancel_all reasons (cancel reason t)

-- A value, or the text of the exception that was raised.
pub data Attempt {ℓ} (A : Type ℓ) : Type ℓ where
  returned : A → Attempt A
  raised : String → Attempt A

pub record Environment (W E : Type 0) : Type 0 where
  pub navigator : NavigationRequest → W → Attempt NavigationResult × W × List String
  pub execute : E → NavigationCandidate → Dict Value → W → Attempt Value × W × List String
  pub deliver : WorkflowEvent → W → W × List String

-- What a run of the engine reads and changes: the world, the token, and the events it has published.
pub record Run (W : Type 0) : Type 0 where
  pub world : W
  pub token : Token
  pub events : List WorkflowEvent

abbrev pub step_result :
    WorkflowStep
    → StepState
    → Option NavigationCandidate
    → Option Value
    → Option String
    → StepResult
step_result step state target output error = record {
  step_id = step.step_id;
  capability = step.capability;
  state = state;
  target = target;
  output = output;
  error = error;
}

-- `value or default` on texts
abbrev pub or_text : String → String → String
or_text v default = ite (str_discrete v "") default v

abbrev pub or_message : Option String → String → String
or_message none default = default
or_message (some v) default = or_text v default

module _ {W E : Type 0} (env : Environment W E) where
  unfoldable pub publish : WorkflowEvent → Run W → Run W
  unfolding cancel_all
  publish event r =
      let (w, reasons) = env.deliver event r.world in
      record { world = w; token = cancel_all reasons r.token; events = r.events ++ event ∷ [] }

  -- A step that fails before or on its provider.
  unfoldable pub fail_step :
      WorkflowStep → Option NavigationCandidate → String → Run W → Run W × StepResult
  unfolding publish
  fail_step step target error r = (
    publish (step_failed step.step_id step.capability error) r,
    step_result step StepState.failed target none (some error),
  )

  -- 3. the provider's answer
  unfoldable pub conclude_step :
      WorkflowStep → NavigationCandidate → Attempt Value → Run W → Run W × StepResult
  unfolding fail_step
  conclude_step step target (returned output) r = (
    publish (step_completed step.step_id step.capability target output) r,
    step_result step StepState.completed (some target) (some output) none,
  )
  conclude_step step target (raised error) r = fail_step step (some target) error r

  -- 2. the executor of the selected provider
  unfoldable pub dispatch :
      WorkflowStep → NavigationCandidate → Option E → Run W → Run W × StepResult
  unfolding conclude_step cancel_all
  dispatch step target none r =
      fail_step step (some target)
        ("No executor available for provider '" <> target.provider_id <> "'") r
  dispatch step target (some executor) r =
      let (answer, w, reasons) = env.execute executor target step.input_data r.world in
      conclude_step step target answer (record r { world = w; token = cancel_all reasons r.token })

  -- 1. the navigator's answer
  unfoldable pub on_navigation :
      Dict E → WorkflowStep → Attempt NavigationResult → Run W → Run W × StepResult
  unfolding dispatch executor_for
  on_navigation executors step (raised error) r =
      fail_step step none ("Navigator invocation error: " <> error) r
  on_navigation executors step (returned result) r = elim result.selected [
    | none ↦
        fail_step step none
          ("Navigation failed to resolve target: "
            <> or_text result.reason "No eligible candidate available")
          r
    | some target ↦ dispatch step target (executor_for target.provider_id executors) r
  ]

  -- `_execute_step`
  unfoldable pub execute_step : Dict E → WorkflowStep → Run W → Run W × StepResult
  unfolding publish on_navigation cancel_all
  execute_step executors step r =
      let r' = publish (step_started step.step_id step.capability none) r in
      let request : NavigationRequest = record {
        capability = step.capability;
        constraints = step.constraints;
      } in
      let (answer, w, reasons) = env.navigator request r'.world in
      on_navigation executors step answer
        (record r' { world = w; token = cancel_all reasons r'.token })
