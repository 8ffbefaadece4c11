-- ===== src/Composite/Tests.antt =====
-- src/shyam/composite on a composite that reads a file and hashes what it read.
use shyam.Base.{
  String, true, false, ◌≡◌, refl, none, some, [], ◌∷◌, str_discrete, ite, ◌≢◌, subst, ap,
}
use shyam.Base.Dict
use shyam.Base.Dict.{Dict}
use shyam.Composite.Bindings.{raised, unbound, step_not_available, missing}
use shyam.Composite.Bound.{invoke-bound}
use shyam.Composite.Declared.{IsOk}
use shyam.Composite.Engine.{invoke}
use shyam.Composite.Models.{Binding, input, step, CompositeCapability, validate_step_references}
use shyam.Navigation.Models.{no_constraints}
use shyam.Values.{Value, other}
use shyam.Workflow.State.{step_state_discrete}
use shyam.Workflow.Tests.{calm, registered, at_start}

abbrev from_input : String → Binding
from_input id = record { source = input; source_id = id; source_key = none }

abbrev from_step : String → Binding
from_step id = record { source = step; source_id = id; source_key = none }

abbrev composite : String → CompositeCapability
composite reads_from = record {
  capability_id = "file.hash";
  inputs = "path" ∷ [];
  outputs = ("digest", from_step "hash") ∷ [];
  steps =
      record {
        step_id = "read";
        capability = "file.read";
        constraints = no_constraints;
        input_bindings = ("path", from_input "path") ∷ [];
      }
      ∷ record {
        step_id = "hash";
        capability = "file.digest";
        constraints = no_constraints;
        input_bindings = ("data", from_step reads_from) ∷ [];
      }
      ∷ [];
}

abbrev given_path : Dict Value
given_path = ("path", other "/tmp/a") ∷ []

is_accepted : validate_step_references (composite "read") ≡ true
unfolding validate_step_references str_discrete
is_accepted = refl

hashes_another : ◌≢◌ {A = String} "read" "hash"
unfolding str_discrete
hashes_another p = absurd (
    subst (λ b. elim b as (λ _. Type 0) [ true ↦ Unit | false ↦ ⊥ ])
      (ap (λ t. ite (str_discrete "read" t) true false) p) tt)

path_is_given : missing (composite "read").inputs given_path ≡ []
unfolding missing str_discrete
path_is_given = refl

-- A step that reads its own output is accepted, and raises when it is reached.
own_output_is_accepted : validate_step_references (composite "hash") ≡ true
unfolding validate_step_references str_discrete
own_output_is_accepted = refl

own_output_raises :
    (invoke calm registered
      (λ name. name)
      true
      (("file.hash", composite "hash") ∷ [])
      "file.hash"
      given_path
      at_start).1
    ≡ raised (unbound "hash" "data" (step_not_available "hash"))
unfolding invoke str_discrete step_state_discrete
own_output_raises = refl

is_found : Dict.get "file.hash" (("file.hash", composite "read") ∷ []) ≡ some (composite "read")
unfolding Dict.get str_discrete
is_found = refl

invoke-bound_example :
    IsOk
      (invoke calm registered
        (λ name. name)
        true
        (("file.hash", composite "read") ∷ [])
        "file.hash"
        given_path
        at_start).1
invoke-bound_example =
    invoke-bound calm registered (λ name. name) true (("file.hash", composite "read") ∷ [])
      "file.hash" (composite "read") given_path at_start is_found is_accepted
      (((refl, tt), tt), (((refl, hashes_another), tt), tt)) (refl, tt) path_is_given
