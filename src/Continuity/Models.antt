-- ===== src/Continuity/Models.antt =====
-- src/shyam/continuity/models.py. Timestamps are left out: no code of the service reads them.
use shyam.Base.{String, Bool, Option, none, List}
use shyam.Base.Dict.{Dict}
use shyam.Continuity.State.{ContinuityState, requested}
use shyam.Navigation.Models.{NavigationConstraints}
use shyam.Values.{Value}

pub data ContinuityOutcome : Type 0 where
  success failure cancellation no_support uncertain : ContinuityOutcome

pub record ContinuityRequest : Type 0 where
  pub work_id : String
  pub source_device_id : String
  pub portable_work : Dict Value
  pub artifact_paths : List String
  pub target_constraints : NavigationConstraints
  pub continuity_intent : String

pub record ContinuityTarget : Type 0 where
  pub node_id : String
  pub provider_id : String
  pub device_id : String
  pub trust_verified : Bool
  pub flux_peer_id : Option String
  pub zarya_url : Option String

pub record ContinuityResult : Type 0 where
  pub outcome : ContinuityOutcome
  pub transfer_completed : Bool
  pub reconstruction_completed : Bool
  pub execution_completed : Bool
  pub zarya_outcome : Option String
  pub reason : String

pub record ContinuitySession : Type 0 where
  pub continuity_id : String
  pub request : ContinuityRequest
  pub target : Option ContinuityTarget
  pub state : ContinuityState
  pub transfer_id : Option String
  pub operation_id : Option String
  pub result : Option ContinuityResult

-- A new session: `ContinuitySession(request=request)`, with its fresh id.
abbrev pub new_session : String → ContinuityRequest → ContinuitySession
new_session id request = record {
  continuity_id = id;
  request = request;
  target = none;
  state = requested;
  transfer_id = none;
  operation_id = none;
  result = none;
}
