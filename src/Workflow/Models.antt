-- ===== src/Workflow/Models.antt =====
-- src/shyam/workflow/models.py and src/shyam/workflow/events.py. Descriptions, metadata and the
-- timestamps of results are left out: no code of the engine reads them.
use shyam.Base.{
  ℕ, String, Bool, true, false, Option, List, [], ◌∷◌, ite, keep, length, str_discrete,
  if◌then◌else◌,
}
use shyam.Base.Dict.{Dict}
use shyam.Navigation.Models.{NavigationConstraints, NavigationCandidate}
use shyam.Values.{Value}
use shyam.Workflow.State.{WorkflowState, StepState, step_state_discrete}

pub record WorkflowStep : Type 0 where
  pub step_id : String
  pub capability : String
  pub constraints : NavigationConstraints
  pub input_data : Dict Value

pub record StepResult : Type 0 where
  pub step_id : String
  pub capability : String
  pub state : StepState
  pub target : Option NavigationCandidate
  pub output : Option Value
  pub error : Option String

unfoldable pub is_success : StepResult → Bool
is_success r = ite (step_state_discrete r.state StepState.completed) true false

pub record Workflow : Type 0 where
  pub workflow_id : String
  pub name : String
  pub steps : List WorkflowStep

-- `step.step_id in seen_ids`
unfoldable pub seen : String → List String → Bool
seen id [] = false
seen id (x ∷ xs) = ite (str_discrete x id) true (seen id xs)

-- `validate_unique_steps`, from the ids that were seen; where it is false the code raises.
unfoldable pub unique_steps : List String → List WorkflowStep → Bool
unfolding seen
unique_steps ids [] = true
unique_steps ids (step ∷ steps) =
    let rest = unique_steps (step.step_id ∷ ids) steps in
    if seen step.step_id ids then false else rest

pub record WorkflowResult : Type 0 where
  pub workflow_id : String
  pub name : String
  pub state : WorkflowState
  pub step_results : List StepResult
  pub error_detail : Option String

-- `sum(1 for s in self.step_results if s.state == state)`
unfoldable pub count_in : StepState → List StepResult → ℕ
count_in state results =
    length (keep (λ r. ite (step_state_discrete r.state state) true false) results)

-- The events, without the id and name of the workflow that each of them carries.
pub data WorkflowEvent : Type 0 where
  workflow_started : ℕ → WorkflowEvent
  workflow_completed : ℕ → WorkflowEvent
  workflow_failed : String → String → WorkflowEvent
  workflow_cancelled : String → WorkflowEvent
  step_started : String → String → Option NavigationCandidate → WorkflowEvent
  step_completed : String → String → NavigationCandidate → Value → WorkflowEvent
  step_failed : String → String → String → WorkflowEvent
  step_skipped : String → String → String → WorkflowEvent
