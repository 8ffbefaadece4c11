-- ===== src/Workflow/State.antt =====
-- src/shyam/workflow/state.py.
use shyam.Base.{Bool, true, false, List, [], ◌∷◌, ite}

pub data WorkflowState : Type 0 where
  pending running completed failed cancelled : WorkflowState

pub data StepState : Type 0 where
  pending running completed failed skipped cancelled : StepState

unfoldable pub workflow_state_discrete : Discrete WorkflowState
workflow_state_discrete = hlevel

unfoldable pub step_state_discrete : Discrete StepState
step_state_discrete = hlevel

-- `VALID_WORKFLOW_TRANSITIONS`
unfoldable pub valid_workflow_transitions : WorkflowState → List WorkflowState
valid_workflow_transitions WorkflowState.pending =
    WorkflowState.running ∷ WorkflowState.cancelled ∷ []
valid_workflow_transitions WorkflowState.running =
    WorkflowState.completed ∷ WorkflowState.failed ∷ WorkflowState.cancelled ∷ []
valid_workflow_transitions WorkflowState.completed = []
valid_workflow_transitions WorkflowState.failed = []
valid_workflow_transitions WorkflowState.cancelled = []

-- `VALID_STEP_TRANSITIONS`
unfoldable pub valid_step_transitions : StepState → List StepState
valid_step_transitions StepState.pending =
    StepState.running ∷ StepState.skipped ∷ StepState.cancelled ∷ []
valid_step_transitions StepState.running =
    StepState.completed ∷ StepState.failed ∷ StepState.cancelled ∷ []
valid_step_transitions StepState.completed = []
valid_step_transitions StepState.failed = []
valid_step_transitions StepState.skipped = []
valid_step_transitions StepState.cancelled = []

abbrev member {ℓ} : {A : Type ℓ} → Discrete A → A → List A → Bool
member d a [] = false
member d a (x ∷ xs) = ite (d x a) true (member d a xs)

-- Whether `validate_workflow_transition` returns; where it is false the code raises.
unfoldable pub validate_workflow_transition : WorkflowState → WorkflowState → Bool
unfolding valid_workflow_transitions workflow_state_discrete
validate_workflow_transition current target =
    member workflow_state_discrete target (valid_workflow_transitions current)

unfoldable pub validate_step_transition : StepState → StepState → Bool
unfolding valid_step_transitions step_state_discrete
validate_step_transition current target =
    member step_state_discrete target (valid_step_transitions current)
