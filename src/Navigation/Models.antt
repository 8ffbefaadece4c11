-- ===== src/Navigation/Models.antt =====
-- src/shyam/navigation/models.py.
use shyam.Base.{String, Bool, true, false, List, Option, none, some}
use shyam.Base.Dict.{Dict}
use shyam.Capabilities.{AvailabilityStatus}
use shyam.Discovery.Models.{EcosystemNodeState}
use shyam.Values.{Value}

pub record NavigationConstraints : Type 0 where
  pub preferred_node : Option String
  pub preferred_provider : Option String
  pub local_only : Bool
  pub remote_allowed : Bool
  pub required_node_state : Option EcosystemNodeState
  pub required_provider_status : Option AvailabilityStatus

-- The defaults.
abbrev pub no_constraints : NavigationConstraints
no_constraints = record {
  preferred_node = none;
  preferred_provider = none;
  local_only = false;
  remote_allowed = true;
  required_node_state = none;
  required_provider_status = none;
}

pub record NavigationRequest : Type 0 where
  pub capability : String
  pub constraints : NavigationConstraints

pub record NavigationCandidate : Type 0 where
  pub node_id : String
  pub node_name : String
  pub provider_id : String
  pub provider_name : String
  pub capability_id : String
  pub is_local : Bool
  pub node_state : EcosystemNodeState
  pub provider_status : AvailabilityStatus
  pub capability_availability : AvailabilityStatus
  pub metadata : Dict Value

pub record RejectedCandidate : Type 0 where
  pub candidate : NavigationCandidate
  pub reason : String

pub record NavigationResult : Type 0 where
  pub capability : String
  pub selected : Option NavigationCandidate
  pub reason : String
  pub alternatives : List NavigationCandidate
  pub rejected : List RejectedCandidate

unfoldable pub has_selection : NavigationResult → Bool
has_selection r = elim r.selected [ none ↦ false | some _ ↦ true ]
