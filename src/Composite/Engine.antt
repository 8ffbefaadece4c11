-- ===== src/Composite/Engine.antt =====
-- src/shyam/composite/engine.py and the lookup of src/shyam/composite/registry.py. The token is that of
-- the run; without a cancellation token every step's workflow makes one of its own. The ids of the
-- workflows are the parameter `new_id`.
use shyam.Base.{
  String, ◌<>◌, Bool, ◌&&◌, Option, none, some, List, [], ◌∷◌, ◌++◌, if◌then◌else◌, ite,
  str_discrete,
}
use shyam.Base.Dict
use shyam.Base.Dict.{Dict}
use shyam.Composite.Bindings.{
  not_found, missing_inputs, no_result, Reply, ok, raised, ExecutionContext, resolve_bindings,
  missing,
}
use shyam.Composite.Models.{CompositeStep, CompositeCapability, CompositeResult}
use shyam.Values.{Value, other}
use shyam.Workflow.Engine.{Environment, Run, new_token}
use shyam.Workflow.Loop.{run}
use shyam.Workflow.Models.{StepResult, Workflow, WorkflowResult, is_success}
use shyam.Workflow.State.{WorkflowState}

-- `WorkflowState.value`
unfoldable pub state_text : WorkflowState → String
state_text WorkflowState.pending = "PENDING"
state_text WorkflowState.running = "RUNNING"
state_text WorkflowState.completed = "COMPLETED"
state_text WorkflowState.failed = "FAILED"
state_text WorkflowState.cancelled = "CANCELLED"

abbrev pub CompositeRegistry : Type 0
CompositeRegistry = Dict CompositeCapability

-- `error_detail or f"Step '{step_id}' failed"`
unfoldable pub or_failed : String → Option String → String
or_failed step_id none = "Step '" <> step_id <> "' failed"
or_failed step_id (some t) = ite (str_discrete t "") ("Step '" <> step_id <> "' failed") t

-- What `output` holds, None included.
abbrev pub output_of : Option Value → Value
output_of none = other ""
output_of (some v) = v

-- The workflow of one step.
unfoldable pub workflow_of :
    (String → String) → CompositeCapability → CompositeStep → Dict Value → Workflow
workflow_of new_id c s resolved =
    let name = c.capability_id <> "::" <> s.step_id in
    record {
      workflow_id = new_id name;
      name = name;
      steps =
          record {
            step_id = s.step_id;
            capability = s.capability;
            constraints = s.constraints;
            input_data = resolved;
          }
          ∷ [];
    }

unfoldable pub keep_output : CompositeStep → StepResult → ExecutionContext → ExecutionContext
unfolding Dict.put
keep_output s x context = record context {
  step_outputs = Dict.put s.step_id (output_of x.output) context.step_outputs;
}

abbrev pub result_of :
    CompositeCapability → String → Dict Value → List StepResult → Option String → CompositeResult
result_of c state outputs results detail = record {
  capability_id = c.capability_id;
  state = state;
  outputs = outputs;
  step_results = results;
  error_detail = detail;
}

module _ {W E : Type 0} (env : Environment W E) (executors : Dict E) (new_id : String → String)
    (given : Bool) (c : CompositeCapability) where
  abbrev pub Outcome : Type 0
  Outcome = Run W × Reply CompositeResult

  unfoldable pub prepare : Run W → Run W
  prepare r = if given then r else record r { token = new_token }

  -- The end of `invoke`: the outputs.
  unfoldable pub conclude : ExecutionContext → List StepResult → Run W → Outcome
  unfolding resolve_bindings
  conclude context results r = (
    r,
    elim (resolve_bindings context "output" c.outputs []) [
      | ok outputs ↦ ok (result_of c "COMPLETED" outputs results none)
      | raised e ↦ raised e
    ],
  )

  -- What is done with the results of a step's workflow, and the rest of the loop.
  unfoldable pub on_results :
      CompositeStep
      → List StepResult
      → WorkflowResult
      → Run W
      → (StepResult → Outcome)
      → List StepResult
      → Outcome
  unfolding is_success state_text or_failed
  on_results s results w r next [] = (r, raised no_result)
  on_results s results w r next (x ∷ _) = if is_success x then next x else (
    r,
    ok (
        result_of c (state_text w.state) [] (results ++ (x ∷ []))
          (some (or_failed s.step_id w.error_detail))),
  )

  -- A step with its bindings resolved.
  unfoldable pub on_resolved :
      CompositeStep
      → List StepResult
      → Run W
      → (Run W → StepResult → Outcome)
      → Reply (Dict Value)
      → Outcome
  unfolding on_results run workflow_of prepare
  on_resolved s results r next (raised e) = (r, raised e)
  on_resolved s results r next (ok resolved) =
      let ran = run env executors (workflow_of new_id c s resolved) (prepare r) in
      on_results s results ran.1 ran.0 (next ran.0) ran.1.step_results

  -- The loop over the steps.
  unfoldable pub loop : List CompositeStep → ExecutionContext → List StepResult → Run W → Outcome
  unfolding conclude on_resolved resolve_bindings keep_output
  loop [] context results r = conclude context results r
  loop (s ∷ steps) context results r =
      if given && r.token.is_cancelled
      then (r, ok (result_of c "CANCELLED" [] results (some r.token.reason)))
      else on_resolved s results r
          (λ after x. loop steps (keep_output s x context) (results ++ (x ∷ [])) after)
          (resolve_bindings context s.step_id s.input_bindings [])

  unfoldable pub on_inputs : Dict Value → Run W → List String → Outcome
  unfolding loop
  on_inputs inputs r [] =
      loop c.steps (record { composite_inputs = inputs; step_outputs = [] }) [] r
  on_inputs inputs r (name ∷ names) = (r, raised (missing_inputs (name ∷ names)))

module _ {W E : Type 0} (env : Environment W E) (executors : Dict E) (new_id : String → String)
    (given : Bool) where
  unfoldable pub invoke :
      CompositeRegistry → String → Dict Value → Run W → Run W × Reply CompositeResult
  unfolding on_inputs missing Dict.get
  invoke registry capability_id inputs r = elim (Dict.get capability_id registry) [
    | none ↦ (r, raised (not_found capability_id))
    | some c ↦ on_inputs env executors new_id given c inputs r (missing c.inputs inputs)
  ]
