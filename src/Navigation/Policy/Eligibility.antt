-- ===== src/Navigation/Policy/Eligibility.antt =====
-- The checks of stage 1 of src/shyam/navigation/policy.py, in the order of the code.
use shyam.Base.{String, ◌<>◌, not, ◌&&◌, Option, none, some, ite, if◌then◌else◌}
use shyam.Capabilities.{AvailabilityStatus, status_value, status_discrete}
use shyam.Discovery.Models.{EcosystemNodeState, state_value, state_discrete}
use shyam.Navigation.Models.{NavigationConstraints, NavigationCandidate}

-- `constraints.required_node_state and cand.node_state != constraints.required_node_state`
unfoldable pub wrong_node_state : Option EcosystemNodeState → EcosystemNodeState → Option String
wrong_node_state none s = none
wrong_node_state (some r) s =
    ite (state_discrete s r) none
      (some ("Violates constraint: required_node_state=" <> state_value r))

unfoldable pub wrong_provider_status :
    Option AvailabilityStatus → AvailabilityStatus → Option String
wrong_provider_status none s = none
wrong_provider_status (some r) s =
    ite (status_discrete s r) none
      (some ("Violates constraint: required_provider_status=" <> status_value r))

abbrev pub or_else : Option String → Option String → Option String
or_else none why = why
or_else (some w) why = some w

-- The checks against the constraints of the request.
unfoldable pub constraint_violation : NavigationConstraints → NavigationCandidate → Option String
unfolding wrong_node_state wrong_provider_status
constraint_violation k c =
    if k.local_only && not c.is_local
    then some "Violates constraint: local_only=True"
    else if not k.remote_allowed && not c.is_local
    then some "Violates constraint: remote_allowed=False"
    else or_else (wrong_node_state k.required_node_state c.node_state)
        (wrong_provider_status k.required_provider_status c.provider_status)

-- The reason of the first check that a candidate fails.
unfoldable pub rejection : NavigationConstraints → NavigationCandidate → Option String
unfolding constraint_violation
rejection k c =
    ite (state_discrete c.node_state EcosystemNodeState.unavailable) (some "Node is unavailable") (
      ite (state_discrete c.node_state EcosystemNodeState.stale) (some "Node state is stale") (
        ite (status_discrete c.provider_status AvailabilityStatus.unavailable)
          (some "Provider status is unavailable")
          (ite (status_discrete c.capability_availability AvailabilityStatus.unavailable)
            (some "Capability availability is unavailable") (constraint_violation k c))))
