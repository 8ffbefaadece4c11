-- ===== src/Composite/Bindings.antt =====
-- src/shyam/composite/engine.py: how bindings are resolved. The texts of errors are constructors.
use shyam.Base.{String, ◌⊎◌, inl, inr, Option, none, some, List, [], ◌∷◌, if◌then◌else◌}
use shyam.Base.Dict
use shyam.Base.Dict.{Dict}
use shyam.Base.Sets.{elem}
use shyam.Composite.Models.{input, step, Binding}
use shyam.Values.{Value, other, dict, entries}

pub data Reason : Type 0 where
  input_not_found : String → Reason
  step_not_available : String → Reason
  not_a_dict : String → Reason
  key_not_found : String → Reason

pub data CompositeError : Type 0 where
  not_found : String → CompositeError
  missing_inputs : List String → CompositeError
  unbound : String → String → Reason → CompositeError
  no_result : CompositeError

pub data Reply {ℓ} (A : Type ℓ) : Type ℓ where
  ok : A → Reply A
  raised : CompositeError → Reply A

-- `_ExecutionContext`
pub record ExecutionContext : Type 0 where
  pub composite_inputs : Dict Value
  pub step_outputs : Dict Value

abbrev pub or_reason : Option Value → Reason → Value ⊎ Reason
or_reason (some v) why = inl v
or_reason none why = inr why

-- The source value.
unfoldable pub locate : ExecutionContext → Binding → Value ⊎ Reason
unfolding Dict.get
locate c b = elim b.source [
  | input ↦ or_reason (Dict.get b.source_id c.composite_inputs) (input_not_found b.source_id)
  | step ↦ or_reason (Dict.get b.source_id c.step_outputs) (step_not_available b.source_id)
]

-- The optional extraction of a key.
unfoldable pub extract : Option String → Value → Value ⊎ Reason
unfolding entries Dict.get
extract none v = inl v
extract (some key) (other t) = inr (not_a_dict key)
extract (some key) (dict fields) = or_reason (Dict.get key (entries fields)) (key_not_found key)

unfoldable pub resolve_binding_value : ExecutionContext → Binding → Value ⊎ Reason
unfolding locate extract
resolve_binding_value c b = elim (locate c b) [ inl v ↦ extract b.source_key v | inr why ↦ inr why ]

-- `_resolve_step_bindings` and `_resolve_output_bindings`, with what is resolved so far.
unfoldable pub resolve_bindings :
    ExecutionContext → String → Dict Binding → Dict Value → Reply (Dict Value)
unfolding resolve_binding_value Dict.put
resolve_bindings c step_id [] resolved = ok resolved
resolve_bindings c step_id ((field_name, b) ∷ bindings) resolved =
    elim (resolve_binding_value c b) [
      | inl v ↦ resolve_bindings c step_id bindings (Dict.put field_name v resolved)
      | inr why ↦ raised (unbound step_id field_name why)
    ]

-- `_validate_inputs`: the declared inputs that are not given
unfoldable pub missing : List String → Dict Value → List String
unfolding elem
missing [] inputs = []
missing (name ∷ names) inputs =
    let rest = missing names inputs in if elem name (Dict.keys inputs) then rest else name ∷ rest
