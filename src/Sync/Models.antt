-- ===== src/Sync/Models.antt =====
-- src/shyam/sync/models.py: the payload, the signed envelope and the result of processing it.
use shyam.Base.{ℕ, String, Bool, true, false, List, ite, str_discrete}
use shyam.Base.Dict.{Dict}
use shyam.Sync.Versions.{NodeVersionMap}

abbrev pub sync_protocol_version : String
sync_protocol_version = "1.0"

pub record SyncPayload : Type 0 where
  pub known_node_ids : List String
  pub node_capabilities : Dict (List String)
  pub node_availability : Dict String

pub record SyncEnvelope : Type 0 where
  pub sender_node_id : String
  pub sender_public_key : String
  pub protocol_version : String
  pub message_type : String
  pub version_map : NodeVersionMap
  pub payload : SyncPayload
  pub timestamp : ℕ
  pub message_id : String
  pub signature : String

unfoldable pub is_signed : SyncEnvelope → Bool
is_signed e = ite (str_discrete e.signature "") false true

pub data SyncOutcome : Type 0 where
  applied already_current rejected_untrusted rejected_invalid_signature rejected_protocol_mismatch
        rejected_malformed rejected_revoked conflict error :
      SyncOutcome

pub record SyncResult : Type 0 where
  pub outcome : SyncOutcome
  pub sender_node_id : String
  pub message_id : String
  pub local_version_before : ℕ
  pub local_version_after : ℕ
  pub detail : String

-- src/shyam/sync/events.py
pub data SyncEvent : Type 0 where
  sync_completed : String → String → SyncOutcome → SyncEvent
  sync_rejected : String → String → SyncOutcome → String → SyncEvent
