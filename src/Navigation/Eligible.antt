-- ===== src/Navigation/Eligible.antt =====
-- src/shyam/navigation/policy.py: which candidates are eligible, told without the order of the checks.
use shyam.Base.{◌≡◌, ◌≢◌, ◌↔◌, true, false, some, none, arith, Option, refl}
use shyam.Capabilities.{AvailabilityStatus}
use shyam.Discovery.Models.{EcosystemNodeState}
use shyam.Navigation.Models.{NavigationConstraints, NavigationCandidate}
use shyam.Navigation.Policy.Eligibility.{
  wrong_node_state, wrong_provider_status, constraint_violation, rejection,
}

-- What a request asks of a candidate.
pub record IsEligible (k : NavigationConstraints) (c : NavigationCandidate) : Type 0 where
  pub node_reachable : c.node_state ≢ EcosystemNodeState.unavailable
  pub node_fresh : c.node_state ≢ EcosystemNodeState.stale
  pub provider_up : c.provider_status ≢ AvailabilityStatus.unavailable
  pub capability_up : c.capability_availability ≢ AvailabilityStatus.unavailable
  pub local_if_only : k.local_only ≡ true → c.is_local ≡ true
  pub local_if_no_remote : k.remote_allowed ≡ false → c.is_local ≡ true
  pub state_as_required :
      (s : EcosystemNodeState) → k.required_node_state ≡ some s → c.node_state ≡ s
  pub status_as_required :
      (s : AvailabilityStatus) → k.required_provider_status ≡ some s → c.provider_status ≡ s

wrong_node_state_iff :
    (o : Option EcosystemNodeState) (s : EcosystemNodeState)
    → (wrong_node_state o s ≡ none) ↔ ((r : EcosystemNodeState) → o ≡ some r → s ≡ r)
unfolding wrong_node_state
wrong_node_state_iff none s = (λ _ r e. cc, λ _. refl)
wrong_node_state_iff (some r) s = (λ h t e. ground arith, λ h. ground (arith, h r refl))

wrong_provider_status_iff :
    (o : Option AvailabilityStatus) (s : AvailabilityStatus)
    → (wrong_provider_status o s ≡ none) ↔ ((r : AvailabilityStatus) → o ≡ some r → s ≡ r)
unfolding wrong_provider_status
wrong_provider_status_iff none s = (λ _ r e. cc, λ _. refl)
wrong_provider_status_iff (some r) s = (λ h t e. ground arith, λ h. ground (arith, h r refl))

module _ (k : NavigationConstraints) (c : NavigationCandidate) where
  -- A candidate is given no reason for rejection exactly when it is eligible.
  pub rejection-none_iff : (rejection k c ≡ none) ↔ IsEligible k c
  unfolding rejection constraint_violation
  rejection-none_iff = (
    λ h. record {
      node_reachable = λ e. ground arith;
      node_fresh = λ e. ground arith;
      provider_up = λ e. ground arith;
      capability_up = λ e. ground arith;
      local_if_only = λ e. ground arith;
      local_if_no_remote = λ e. ground arith;
      state_as_required =
          (wrong_node_state_iff k.required_node_state c.node_state).0 (ground arith);
      status_as_required =
          (wrong_provider_status_iff k.required_provider_status c.provider_status).0 (ground arith);
    },
    λ h. ground (
      arith,
      (wrong_node_state_iff k.required_node_state c.node_state).1 h.state_as_required,
      (wrong_provider_status_iff k.required_provider_status c.provider_status).1
          h.status_as_required,
    ),
  )
