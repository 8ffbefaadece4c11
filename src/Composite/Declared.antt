-- ===== src/Composite/Declared.antt =====
-- src/shyam/composite: what the validator accepts can be resolved.
use shyam.Base.{
  String, Bool-cases, Bool, true, ◌&&◌, ◌≡◌, ◌≢◌, refl, sym, ◌∙◌, ap, subst, Option, none, some,
  List, [], ◌∷◌, ite, str_discrete, arith, All, ◌⊎◌, inl, inr,
}
use shyam.Base.Dict
use shyam.Base.Dict.{Dict, get-put}
use shyam.Base.Sets.{elem, elem-put}
use shyam.Composite.Bindings.{
  Reason, unbound, Reply, ok, raised, ExecutionContext, locate, extract, resolve_binding_value,
  resolve_bindings, missing,
}
use shyam.Composite.Engine.{keep_output, output_of}
use shyam.Composite.Models.{
  BindingSource, input, step, Binding, CompositeStep, is_declared, are_declared, validate_steps,
}
use shyam.Values.{Value}
use shyam.Workflow.Models.{StepResult}

abbrev pub IsOk : {A : Type 0} → Reply A → Type 0
IsOk (ok x) = Unit
IsOk (raised e) = ⊥

abbrev pub IsAnother : String → String → BindingSource → Type 0
IsAnother id source_id input = Unit
IsAnother id source_id step = source_id ≢ id

-- A binding that takes the whole value.
abbrev pub IsWhole : Binding → Type 0
IsWhole b = b.source_key ≡ none

-- The bindings of a step take whole values, none of the step itself.
abbrev pub IsPlain : CompositeStep → Type 0
IsPlain s = All (λ e. IsWhole e.1 × IsAnother s.step_id e.1.source_id e.1.source) s.input_bindings

-- Every name has a value.
abbrev pub HasAll : List String → Dict Value → Type 0
HasAll names d = (name : String) → elem name names ≡ true → elem name (Dict.keys d) ≡ true

abbrev pub Holds : List String → List String → ExecutionContext → Type 0
Holds inputs ids context = HasAll inputs context.composite_inputs × HasAll ids context.step_outputs

get-elem :
    (k : String) (d : Dict Value)
    → elem k (Dict.keys d) ≡ true
    → (v : Value) × (Dict.get k d ≡ some v)
unfolding elem Dict.get
get-elem k [] h = absurd (ground (arith, h))
get-elem k ((j, w) ∷ d) h =
    elim (str_discrete j k)
        as (λ q.
          ite q true (elem k (Dict.keys d)) ≡ true
          → (v : Value) × (ite q (some w) (Dict.get k d) ≡ some v)) [
            | yes p ↦ λ _. (w, refl)
            | no n ↦ λ h. get-elem k d h
          ]
      h

located :
    (source : BindingSource) (id : String) (key : Option String) (inputs ids : List String)
    (context : ExecutionContext)
    → Holds inputs ids context
    → is_declared inputs ids (record { source = source; source_id = id; source_key = key }) ≡ true
    → (v : Value) × (locate context (record { source = source; source_id = id; source_key = key })
        ≡ inl v)
unfolding is_declared locate
located input id key inputs ids context h d =
    let (v, e) = get-elem id context.composite_inputs (h.0 id d) in (v, rw e refl)
located step id key inputs ids context h d =
    let (v, e) = get-elem id context.step_outputs (h.1 id d) in (v, rw e refl)

resolved_whole :
    (context : ExecutionContext) (b : Binding) (inputs ids : List String)
    → Holds inputs ids context
    → IsWhole b
    → is_declared inputs ids b ≡ true
    → (v : Value) × (resolve_binding_value context b ≡ inl v)
unfolding resolve_binding_value extract
resolved_whole context b inputs ids h whole d =
    let (v, e) = located b.source b.source_id b.source_key inputs ids context h d in
    (
      v,
      ap
            (λ l. elim l as (λ _. Value ⊎ Reason) [
              | inl v ↦ extract b.source_key v
              | inr why ↦ inr why
            ])
            e
          ∙ ap (λ k. extract k v) whole,
    )

pub resolve-IsOk :
    (context : ExecutionContext) (step_id : String) (bindings : Dict Binding)
    (resolved : Dict Value) (inputs ids : List String)
    → Holds inputs ids context
    → All (λ e. IsWhole e.1 × (is_declared inputs ids e.1 ≡ true)) bindings
    → IsOk (resolve_bindings context step_id bindings resolved)
unfolding resolve_bindings
resolve-IsOk context step_id [] resolved inputs ids h a = tt
resolve-IsOk context step_id ((f, b) ∷ bindings) resolved inputs ids h a =
    let (v, e) = resolved_whole context b inputs ids h a.0.0 a.0.1 in
    subst
      (λ x. IsOk (elim x as (λ _. Reply (Dict Value)) [
        | inl v ↦ resolve_bindings context step_id bindings (Dict.put f v resolved)
        | inr why ↦ raised (unbound step_id f why)
      ]))
      (sym e) (resolve-IsOk context step_id bindings (Dict.put f v resolved) inputs ids h a.1)

both : (a b : Bool) → (a && b) ≡ true → (a ≡ true) × (b ≡ true)
both a b h = (ground (arith, h), ground (arith, h))

-- What the validator accepts under the ids that hold the step's own is declared without it.
another-declared :
    (source : BindingSource) (source_id : String) (key : Option String) (id : String)
    (inputs ids : List String)
    → IsAnother id source_id source
    → is_declared inputs
        (id ∷ ids)
        (record { source = source; source_id = source_id; source_key = key })
      ≡ true
    → is_declared inputs ids (record { source = source; source_id = source_id; source_key = key })
      ≡ true
unfolding is_declared elem
another-declared input source_id key id inputs ids n d = d
another-declared step source_id key id inputs ids n d = ground (arith, n, d)

pub bindings-declared :
    (id : String) (inputs ids : List String) (bindings : Dict Binding)
    → All (λ e. IsWhole e.1 × IsAnother id e.1.source_id e.1.source) bindings
    → are_declared inputs (id ∷ ids) bindings ≡ true
    → All (λ e. IsWhole e.1 × (is_declared inputs ids e.1 ≡ true)) bindings
unfolding are_declared
bindings-declared id inputs ids [] a d = tt
bindings-declared id inputs ids ((f, b) ∷ bindings) a d =
    let (d, ds) =
      both (is_declared inputs (id ∷ ids) b) (are_declared inputs (id ∷ ids) bindings) d in
    (
      (a.0.0, another-declared b.source b.source_id b.source_key id inputs ids a.0.1 d),
      bindings-declared id inputs ids bindings a.1 ds,
    )

pub outputs-declared :
    (inputs ids : List String) (bindings : Dict Binding)
    → All (λ e. IsWhole e.1) bindings
    → are_declared inputs ids bindings ≡ true
    → All (λ e. IsWhole e.1 × (is_declared inputs ids e.1 ≡ true)) bindings
unfolding are_declared
outputs-declared inputs ids [] a d = tt
outputs-declared inputs ids ((f, b) ∷ bindings) a d =
    let (d, ds) = both (is_declared inputs ids b) (are_declared inputs ids bindings) d in
    ((a.0, d), outputs-declared inputs ids bindings a.1 ds)

HasAll-put :
    (k : String) (v : Value) (d : Dict Value) (ids : List String)
    → HasAll ids d
    → HasAll (k ∷ ids) (Dict.put k v d)
unfolding elem
HasAll-put k v d ids h name m = elim (Bool-cases (elem name ids)) [
  | inl p ↦ ground (arith, elem-put name k v d, h name p)
  | inr n ↦ ground (arith, elem-put name k v d, n, m)
]

pub keep-Holds :
    (s : CompositeStep) (x : StepResult) (inputs ids : List String) (context : ExecutionContext)
    → Holds inputs ids context
    → Holds inputs (s.step_id ∷ ids) (keep_output s x context)
unfolding keep_output
keep-Holds s x inputs ids context h =
    (h.0, HasAll-put s.step_id (output_of x.output) context.step_outputs ids h.1)

missing-tail :
    (n : String) (names : List String) (d : Dict Value)
    → missing (n ∷ names) d ≡ []
    → (elem n (Dict.keys d) ≡ true) × (missing names d ≡ [])
unfolding missing
missing-tail n names d e = (ground (arith, e), ground (arith, e))

pub missing-HasAll : (names : List String) (d : Dict Value) → missing names d ≡ [] → HasAll names d
unfolding elem
missing-HasAll [] d e name m = absurd (ground (arith, m))
missing-HasAll (n ∷ names) d e name m =
    let (here, rest) = missing-tail n names d e in
    elim (str_discrete n name)
        as (λ q. ite q true (elem name names) ≡ true → elem name (Dict.keys d) ≡ true) [
          | yes p ↦ λ _. subst (λ k. elem k (Dict.keys d) ≡ true) p here
          | no _ ↦ missing-HasAll names d rest name
        ]
      m

pub validated :
    (inputs ids : List String) (s : CompositeStep) (steps : List CompositeStep) (fin : List String)
    → validate_steps inputs ids (s ∷ steps) ≡ some fin
    → (are_declared inputs (s.step_id ∷ ids) s.input_bindings ≡ true)
      × (validate_steps inputs (s.step_id ∷ ids) steps ≡ some fin)
unfolding validate_steps
validated inputs ids s steps fin e = (ground (arith, e), ground (arith, e))
