-- ===== src/Composite/Bound.antt =====
-- src/shyam/composite: what `validate_step_references` accepts does not go wrong in the engine.
use shyam.Base.{
  String, Option-cases, Bool, true, false, ◌&&◌, ◌≡◌, ◌≢◌, refl, sym, subst, none, some, List, [],
  ◌∷◌, ◌++◌, if◌then◌else◌, arith, All, inl, inr,
}
use shyam.Base.Dict
use shyam.Base.Dict.{Dict, get-put}
use shyam.Base.Sets.{elem}
use shyam.Composite.Bindings.{
  not_found, Reply, ok, raised, ExecutionContext, resolve_bindings, missing,
}
use shyam.Composite.Engine.{
  CompositeRegistry, workflow_of, keep_output, Outcome, prepare, conclude, on_results, on_resolved,
  loop, on_inputs, invoke, result_of, state_text, or_failed,
}
use shyam.Composite.Models.{
  CompositeStep, CompositeCapability, CompositeResult, are_declared, validate_steps,
  validate_step_references,
}
use shyam.Values.{Value}
use shyam.Workflow.Engine.{Environment, Run}
use shyam.Workflow.Courses.{Each, IsResultOf}
use shyam.Workflow.FailFast.{run-labels}
use shyam.Workflow.Loop.{run}
use shyam.Workflow.Models.{WorkflowStep, StepResult, WorkflowResult, is_success}
use shyam.Composite.Declared.{
  IsOk, IsWhole, IsPlain, Holds, resolve-IsOk, outputs-declared, bindings-declared, keep-Holds,
  missing-HasAll, validated,
}

nonempty :
    (x : WorkflowStep) (xs : List WorkflowStep) (ys : List StepResult)
    → Each IsResultOf (x ∷ xs) ys
    → ys ≢ []
nonempty x xs [] e = absurd e
nonempty x xs (y ∷ ys) e = λ h. ground (arith, h)

same_ids : (ids fin : List String) → some ids ≡ some fin → fin ≡ ids
same_ids ids fin e = cc

-- The engine of one composite.
module _ {W E : Type 0} (env : Environment W E) (executors : Dict E) (new_id : String → String)
    (given : Bool) (c : CompositeCapability) where
  on_results-IsOk :
      (s : CompositeStep) (results : List StepResult) (w : WorkflowResult) (r : Run W)
      (next : StepResult → Outcome env executors new_id given c)
      → ((x : StepResult) → IsOk (next x).1)
      → (xs : List StepResult) → (xs ≢ [])
      → IsOk (on_results env executors new_id given c s results w r next xs).1
  unfolding on_results
  on_results-IsOk s results w r next h [] n = absurd (n refl)
  on_results-IsOk s results w r next h (x ∷ xs) n =
      elim (is_success x)
        as (λ q.
          IsOk
            (if q then next x else (
              r,
              ok (
                  result_of c (state_text w.state) [] (results ++ (x ∷ []))
                    (some (or_failed s.step_id w.error_detail))),
            )).1) [ true ↦ h x | false ↦ tt ]

  on_resolved-IsOk :
      (s : CompositeStep) (results : List StepResult) (r : Run W)
      (next : Run W → StepResult → Outcome env executors new_id given c)
      → ((after : Run W) (x : StepResult) → IsOk (next after x).1)
      → (a : Reply (Dict Value)) → IsOk a
      → IsOk (on_resolved env executors new_id given c s results r next a).1
  unfolding on_resolved workflow_of
  on_resolved-IsOk s results r next h (raised e) a = absurd a
  on_resolved-IsOk s results r next h (ok resolved) a =
      let wf = workflow_of new_id c s resolved in
      let start = prepare env executors new_id given c r in
      let ran = run env executors wf start in
      on_results-IsOk s results ran.1 ran.0 (next ran.0) (h ran.0) ran.1.step_results
        (nonempty _ [] ran.1.step_results (run-labels env executors wf start))

  concluded :
      (context : ExecutionContext) (results : List StepResult) (r : Run W) (a : Reply (Dict Value))
      → IsOk a
      → IsOk (elim a as (λ _. Reply CompositeResult) [
        | ok outputs ↦ ok (result_of c "COMPLETED" outputs results none)
        | raised e ↦ raised e
      ])
  concluded context results r (ok outputs) a = tt
  concluded context results r (raised e) a = a

  loop-IsOk :
      (steps : List CompositeStep) (ids fin : List String) (context : ExecutionContext)
      (results : List StepResult) (r : Run W)
      → validate_steps c.inputs ids steps ≡ some fin
      → are_declared c.inputs fin c.outputs ≡ true
      → All IsPlain steps
      → All (λ e. IsWhole e.1) c.outputs
      → Holds c.inputs ids context
      → IsOk (loop env executors new_id given c steps context results r).1
  unfolding loop conclude validate_steps
  loop-IsOk [] ids fin context results r v o plain whole h =
      concluded context results r (resolve_bindings context "output" c.outputs []) (
        resolve-IsOk context "output" c.outputs [] c.inputs ids h (
          outputs-declared c.inputs ids c.outputs whole
            (subst (λ l. are_declared c.inputs l c.outputs ≡ true) (same_ids ids fin v) o)))
  loop-IsOk (s ∷ steps) ids fin context results r v o plain whole h =
      let (d, rest) = validated c.inputs ids s steps fin v in
      elim (given && r.token.is_cancelled)
        as (λ q.
          IsOk
            (if q
              then (r, ok (result_of c "CANCELLED" [] results (some r.token.reason)))
              else on_resolved env executors new_id given c s results r
                  (λ after x.
                    loop env executors new_id given c steps (keep_output s x context)
                      (results ++ (x ∷ [])) after)
                  (resolve_bindings context s.step_id s.input_bindings [])).1) [
                    | true ↦ tt
                    | false ↦
                        on_resolved-IsOk s results r
                          (λ after x.
                            loop env executors new_id given c steps (keep_output s x context)
                              (results ++ (x ∷ [])) after)
                          (λ after x.
                            loop-IsOk steps (s.step_id ∷ ids) fin (keep_output s x context)
                              (results ++ (x ∷ [])) after rest o plain.1 whole
                              (keep-Holds s x c.inputs ids context h))
                          (resolve_bindings context s.step_id s.input_bindings [])
                          (resolve-IsOk context s.step_id s.input_bindings [] c.inputs ids h
                            (bindings-declared s.step_id c.inputs ids s.input_bindings plain.0 d))
                  ]

  on_inputs-IsOk :
      (fin : List String) (inputs : Dict Value) (r : Run W) (names : List String)
      → validate_steps c.inputs [] c.steps ≡ some fin
      → are_declared c.inputs fin c.outputs ≡ true
      → All IsPlain c.steps
      → All (λ e. IsWhole e.1) c.outputs
      → missing c.inputs inputs ≡ []
      → names ≡ []
      → IsOk (on_inputs env executors new_id given c inputs r names).1
  unfolding on_inputs elem
  on_inputs-IsOk fin inputs r [] v o plain whole m n =
      loop-IsOk c.steps [] fin (record { composite_inputs = inputs; step_outputs = [] }) [] r v o
        plain whole (missing-HasAll c.inputs inputs m, λ name h. absurd (ground (arith, h)))
  on_inputs-IsOk fin inputs r (name ∷ names) v o plain whole m n = absurd (ground (arith, n))

accepted :
    (c : CompositeCapability)
    → validate_step_references c ≡ true
    → (fin : List String) × (validate_steps c.inputs [] c.steps ≡ some fin)
      × (are_declared c.inputs fin c.outputs ≡ true)
unfolding validate_step_references
accepted c v = elim (Option-cases (validate_steps c.inputs [] c.steps)) [
  | inl e ↦ absurd (ground (arith, v, e))
  | inr (fin, e) ↦ (fin, e, ground (arith, v, e))
]

-- A registered composite that `validate_step_references` accepts, whose bindings take whole values and
-- none of them the output of its own step, raises no error when it is invoked with all of its inputs,
-- whatever the navigator and the providers do.
pub invoke-bound :
    {W E : Type 0} (env : Environment W E) (executors : Dict E) (new_id : String → String)
    (given : Bool) (registry : CompositeRegistry) (id : String) (c : CompositeCapability)
    (inputs : Dict Value) (r : Run W)
    → Dict.get id registry ≡ some c
    → validate_step_references c ≡ true
    → All IsPlain c.steps
    → All (λ e. IsWhole e.1) c.outputs
    → missing c.inputs inputs ≡ []
    → IsOk (invoke env executors new_id given registry id inputs r).1
unfolding invoke
invoke-bound {W = W} env executors new_id given registry id c inputs r e v plain whole m =
    let (fin, accepts, declared) = accepted c v in
    subst
      (λ o.
        IsOk
          (elim o as (λ _. Run W × Reply CompositeResult) [
            | none ↦ (r, raised (not_found id))
            | some c ↦ on_inputs env executors new_id given c inputs r (missing c.inputs inputs)
          ]).1)
      (sym e)
      (on_inputs-IsOk env executors new_id given c fin inputs r (missing c.inputs inputs) accepts
        declared plain whole m m)
