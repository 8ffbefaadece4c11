-- ===== src/Core/Meaning.antt =====
-- src/shyam/core/readiness.py: what the readiness of the ecosystem says of the states.
use shyam.Base.{◌≡◌, ◌≢◌, ◌⊎◌, ◌↔◌, [], ◌∷◌, ite, arith, inl, inr}
use shyam.Core.Models.{ComponentState, component_discrete, EcosystemReadiness}
use shyam.Core.Readiness.{aggregate}

-- What readiness means, told of the states of the node and of the two components.
pub record Means (node zarya flux : ComponentState) (r : EcosystemReadiness) : Type 0 where
  pub ready_iff :
      (r ≡ EcosystemReadiness.ready)
      ↔ (node ≡ ComponentState.ready)
        × (zarya ≡ ComponentState.ready)
        × (flux ≡ ComponentState.ready)
  pub never_unavailable : r ≢ EcosystemReadiness.unavailable
  pub starting_iff :
      (r ≡ EcosystemReadiness.starting)
      ↔ (node ≢ ComponentState.ready)
        ⊎ ((zarya ≢ ComponentState.ready)
            × (flux ≢ ComponentState.ready)
            × ((zarya ≡ ComponentState.starting) ⊎ (flux ≡ ComponentState.starting)))

starting_when :
    (node zarya flux : ComponentState)
    → ite
        (component_discrete node ComponentState.ready)
        (aggregate (zarya ∷ flux ∷ []))
        EcosystemReadiness.starting
      ≡ EcosystemReadiness.starting
    → (node ≢ ComponentState.ready)
      ⊎ ((zarya ≢ ComponentState.ready)
          × (flux ≢ ComponentState.ready)
          × ((zarya ≡ ComponentState.starting) ⊎ (flux ≡ ComponentState.starting)))
unfolding aggregate
starting_when node zarya flux h = elim (component_discrete node ComponentState.ready) [
  | no n ↦ inl n
  | yes p ↦ elim (component_discrete zarya ComponentState.starting) [
    | yes z ↦ inr (λ e. ground arith, λ e. ground arith, inl z)
    | no z ↦ inr (λ e. ground arith, λ e. ground arith, inr (ground arith))
  ]
]

pub aggregate-Means :
    (node zarya flux : ComponentState)
    → Means node zarya flux (
        ite
          (component_discrete node ComponentState.ready)
          (aggregate (zarya ∷ flux ∷ []))
          EcosystemReadiness.starting)
unfolding aggregate
aggregate-Means node zarya flux = record {
  ready_iff = (λ h. (ground arith, ground arith, ground arith), λ h. ground arith);
  never_unavailable = λ h. ground arith;
  starting_iff = (starting_when node zarya flux, λ h. ground arith);
}
