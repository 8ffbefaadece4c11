-- ===== src/Composite/Models.antt =====
-- src/shyam/composite/models.py. Descriptions, versions and metadata are left out, and so are the
-- validators of single names: ids are taken as built.
use shyam.Base.{String, Bool, false, Option, none, some, List, [], ◌∷◌, all, if◌then◌else◌}
use shyam.Base.Dict.{Dict}
use shyam.Base.Sets.{elem}
use shyam.Navigation.Models.{NavigationConstraints}
use shyam.Values.{Value}
use shyam.Workflow.Models.{StepResult}

pub data BindingSource : Type 0 where
  input step : BindingSource

pub record Binding : Type 0 where
  pub source : BindingSource
  pub source_id : String
  pub source_key : Option String

pub record CompositeStep : Type 0 where
  pub step_id : String
  pub capability : String
  pub constraints : NavigationConstraints
  pub input_bindings : Dict Binding

pub record CompositeCapability : Type 0 where
  pub capability_id : String
  pub inputs : List String
  pub outputs : Dict Binding
  pub steps : List CompositeStep

pub record CompositeResult : Type 0 where
  pub capability_id : String
  pub state : String
  pub outputs : Dict Value
  pub step_results : List StepResult
  pub error_detail : Option String

-- What a binding reads is declared: an input, or a step among those seen.
unfoldable pub is_declared : List String → List String → Binding → Bool
unfolding elem
is_declared inputs ids b = elim b.source [
  | input ↦ elem b.source_id inputs
  | step ↦ elem b.source_id ids
]

unfoldable pub are_declared : List String → List String → Dict Binding → Bool
unfolding is_declared
are_declared inputs ids bindings = all (λ e. is_declared inputs ids e.1) bindings

-- The ids after all steps, or `none` where the code raises. A step's id is added before its bindings
-- are looked at.
unfoldable pub validate_steps :
    List String → List String → List CompositeStep → Option (List String)
unfolding elem are_declared
validate_steps inputs ids [] = some ids
validate_steps inputs ids (s ∷ steps) =
    let rest = validate_steps inputs (s.step_id ∷ ids) steps in
    if elem s.step_id ids
    then none
    else if are_declared inputs (s.step_id ∷ ids) s.input_bindings
    then rest
    else none

-- `validate_step_references`: false where the code raises.
unfoldable pub validate_step_references : CompositeCapability → Bool
unfolding validate_steps are_declared
validate_step_references c = elim (validate_steps c.inputs [] c.steps) [
  | some ids ↦ are_declared c.inputs ids c.outputs
  | none ↦ false
]
