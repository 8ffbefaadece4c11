-- ===== src/Bootstrap/Models.antt =====
-- src/shyam/bootstrap/models.py. A fresh id and a clock reading are arguments.
use shyam.Base.{ℕ, String, Bool, true, false, Option, none, some, if◌then◌else◌}
use shyam.Base.Dict.{Dict}
use shyam.Values.{Value}

pub data BootstrapState : Type 0 where
  uninitialized identity_ready bootstrap_requested authenticating : BootstrapState
  trust_established state_initializing syncing : BootstrapState
  ready failed rejected cancelled : BootstrapState

-- `new_state in _VALID_TRANSITIONS[state]`
unfoldable pub is_allowed : BootstrapState → BootstrapState → Bool
is_allowed uninitialized new = elim new [ identity_ready ↦ true | _ ↦ false ]
is_allowed identity_ready new = elim new [ bootstrap_requested ↦ true | _ ↦ false ]
is_allowed bootstrap_requested new = elim new [ authenticating ↦ true | _ ↦ false ]
is_allowed authenticating new = elim new [
  | trust_established ↦ true
  | rejected ↦ true
  | failed ↦ true
  | cancelled ↦ true
  | _ ↦ false
]
is_allowed trust_established new = elim new [
  | state_initializing ↦ true
  | failed ↦ true
  | cancelled ↦ true
  | _ ↦ false
]
is_allowed state_initializing new = elim new [
  | syncing ↦ true
  | failed ↦ true
  | cancelled ↦ true
  | _ ↦ false
]
is_allowed syncing new = elim new [ ready ↦ true | failed ↦ true | cancelled ↦ true | _ ↦ false ]
is_allowed ready new = false
is_allowed failed new = false
is_allowed rejected new = false
is_allowed cancelled new = false

pub data BootstrapOutcome : Type 0 where
  success rejected_revoked rejected_untrusted rejected_invalid_identity : BootstrapOutcome
  rejected_signature failed_timeout failed_sync failed_internal outcome_cancelled : BootstrapOutcome

pub record BootstrapRequest : Type 0 where
  pub request_id : String
  pub node_id : String
  pub public_key : String
  pub node_name : String
  pub protocol_version : String
  pub timestamp : ℕ
  pub signature : String
  pub is_recovery : Bool
  pub metadata : Dict Value

pub record BootstrapResponse : Type 0 where
  pub request_id : String
  pub accepted : Bool
  pub authority_node_id : String
  pub authority_public_key : String
  pub rejection_reason : String
  pub outcome : BootstrapOutcome

pub record BootstrapSession : Type 0 where
  pub session_id : String
  pub state : BootstrapState
  pub node_id : String
  pub authority_node_id : String
  pub outcome : Option BootstrapOutcome
  pub error_detail : String
  pub created_at : ℕ
  pub updated_at : ℕ

-- `BootstrapSession()`
unfoldable pub new_session : String → ℕ → BootstrapSession
new_session session_id now = record {
  session_id = session_id;
  state = uninitialized;
  node_id = "";
  authority_node_id = "";
  outcome = none;
  error_detail = "";
  created_at = now;
  updated_at = now;
}

-- `none` is the `ValueError` of a transition that the table does not allow.
unfoldable pub transition : BootstrapState → ℕ → BootstrapSession → Option BootstrapSession
unfolding is_allowed
transition new_state now s =
    if is_allowed s.state new_state
    then some (record s { state = new_state; updated_at = now })
    else none

unfoldable pub is_terminal : BootstrapSession → Bool
is_terminal s = elim s.state [
  | ready ↦ true
  | failed ↦ true
  | rejected ↦ true
  | cancelled ↦ true
  | _ ↦ false
]

unfoldable pub is_successful : BootstrapSession → Bool
is_successful s = elim s.state [ ready ↦ true | _ ↦ false ]

pub data RecoveryScenario : Type 0 where
  state_lost_identity_intact identity_lost partial_state : RecoveryScenario
  interrupted_bootstrap revoked_node unknown : RecoveryScenario

pub record RecoveryRequest : Type 0 where
  pub request_id : String
  pub scenario : RecoveryScenario
  pub existing_node_id : String
  pub public_key : String

pub record RecoveryResult : Type 0 where
  pub request_id : String
  pub success : Bool
  pub scenario : RecoveryScenario
  pub new_node_id : String
  pub detail : String
