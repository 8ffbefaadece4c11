-- ===== src/Bootstrap/Client.antt =====
-- src/shyam/bootstrap/service.py: `execute_client_bootstrap` and `recover_device`. The id of the session
-- and the clock reading are arguments; `transport` is the transport of the call. The handler of
-- an exception of `increment_local_version` is left out: that method raises nothing.
use shyam.Base.{ℕ, String, Bool, true, false, Option, none, some, [], if◌then◌else◌}
use shyam.Base.Dict
use shyam.Base.Dict.{Dict}
use shyam.Bootstrap.Authority.{Signing, signable}
use shyam.Bootstrap.Models.{
  BootstrapState, identity_ready, bootstrap_requested, authenticating, trust_established,
  state_initializing, syncing, ready, failed, rejected, BootstrapRequest, BootstrapResponse,
  BootstrapSession, new_session, transition, state_lost_identity_intact, identity_lost,
  partial_state, interrupted_bootstrap, revoked_node, unknown, RecoveryRequest, RecoveryResult,
}
use shyam.Identity.{NodeIdentity}
use shyam.Sync.Service.{SyncState, increment_local_version}
use shyam.Trust.Models.{TrustRecord, RelationshipType}
use shyam.Trust.Service.{TrustState, Reply, ok, raised, grant_trust}
use shyam.Trust.Store.{TrustError, Write}

pub record BootstrapService : Type 0 where
  pub identity : Option NodeIdentity
  pub trust : TrustState
  pub sync : Option SyncState
  pub sessions : Dict BootstrapSession

pub data Answer : Type 0 where
  responded : BootstrapResponse → Answer
  lost : String → Answer

-- What a method raises: `BootstrapError` in three places, `BootstrapRejectedError`, the `ValueError` of
-- a transition, `RecoveryError`, and what the trust service raises.
pub data Failure : Type 0 where
  identity_missing sync_missing invalid_transition recovery_error : Failure
  transport_failed : String → Failure
  refused : String → String → Failure
  trust_failed : TrustError → Failure

pub data Ended {ℓ} (A : Type ℓ) : Type ℓ where
  returned : A → Ended A
  raises : Failure → Ended A

abbrev pub Outcome : Type 0
Outcome = BootstrapService × Ended BootstrapSession

-- `self._sessions[session.session_id] = session`
unfoldable pub keep_session : BootstrapSession → BootstrapService → BootstrapService
keep_session s b = record b { sessions = Dict.put s.session_id s b.sessions }

-- `session = session.transition(new)`, and the rest with it.
unfoldable pub advance :
    BootstrapState
    → ℕ
    → BootstrapSession
    → BootstrapService
    → (BootstrapSession → Outcome)
    → Outcome
unfolding transition
advance new now s b rest = elim (transition new now s) [
  | none ↦ (b, raises invalid_transition)
  | some s' ↦ rest s'
]

-- A transition to a state in which the session is kept before the exception is raised.
unfoldable pub give_up :
    BootstrapState → Failure → ℕ → BootstrapSession → BootstrapService → Outcome
unfolding advance keep_session
give_up state failure now s b = advance state now s b (λ s'. (keep_session s' b, raises failure))

unfoldable pub request_of : Signing → NodeIdentity → SyncState → BootstrapSession → BootstrapRequest
unfolding signable
request_of g i sync s = record {
  request_id = s.session_id;
  node_id = i.node_id;
  public_key = sync.public_key;
  node_name = i.node_name;
  protocol_version = "0.2.0";
  timestamp = s.created_at;
  signature =
      g.sign sync.private_key (signable g s.session_id i.node_id sync.public_key s.created_at);
  is_recovery = false;
  metadata = [];
}

-- From the local trust in the authority on.
unfoldable pub on_granted :
    ℕ → SyncState → BootstrapSession → BootstrapService → TrustState × Reply TrustRecord → Outcome
unfolding advance keep_session increment_local_version
on_granted now sync s b (t, raised e) = (record b { trust = t }, raises (trust_failed e))
on_granted now sync s b (t, ok _ _) =
    let b' = record b { trust = t } in
    advance state_initializing now s b' λ s. advance syncing now s b' λ s.
      let b' = record b' { sync = some (increment_local_version sync).0 } in
      advance ready now s b' λ s. (keep_session s b', returned s)

unfoldable pub on_answer :
    Write → ℕ → NodeIdentity → SyncState → BootstrapSession → BootstrapService → Answer → Outcome
unfolding give_up advance on_granted grant_trust
on_answer write now i sync s b (lost e) = give_up failed (transport_failed e) now s b
on_answer write now i sync s b (responded r) =
    if r.accepted
    then (advance trust_established now s b λ s. on_granted now sync s b (
        grant_trust write r.authority_node_id (some r.authority_public_key)
          RelationshipType.infrastructure "Bootstrap Authority" none now b.trust))
    else give_up rejected (refused i.node_id r.rejection_reason) now s b

unfoldable pub on_sync :
    Signing
    → (String → BootstrapRequest → Answer)
    → Write
    → String
    → ℕ
    → NodeIdentity
    → BootstrapSession
    → BootstrapService
    → Option SyncState
    → Outcome
unfolding advance request_of on_answer
on_sync g transport write endpoint now i s b none = (b, raises sync_missing)
on_sync g transport write endpoint now i s b (some sync) =
    advance authenticating now s b
      λ s'. on_answer write now i sync s' b (transport endpoint (request_of g i sync s))

unfoldable pub on_identity :
    Signing
    → (String → BootstrapRequest → Answer)
    → Write
    → String
    → ℕ
    → BootstrapSession
    → BootstrapService
    → Option NodeIdentity
    → Outcome
unfolding on_sync
on_identity g transport write endpoint now s b none = (b, raises identity_missing)
on_identity g transport write endpoint now s b (some i) =
    on_sync g transport write endpoint now i s b b.sync

unfoldable pub execute_client_bootstrap :
    Signing
    → (String → BootstrapRequest → Answer)
    → Write
    → String
    → String
    → ℕ
    → BootstrapService
    → Outcome
unfolding new_session keep_session advance on_identity
execute_client_bootstrap g transport write endpoint session_id now b =
    let s = new_session session_id now in
    let b' = keep_session s b in
    advance identity_ready now s b' λ s.
      advance bootstrap_requested now s b'
        λ s. on_identity g transport write endpoint now s b' b'.identity

unfoldable pub recovered : RecoveryRequest → Bool → String → String → RecoveryResult
recovered q success new_node_id detail = record {
  request_id = q.request_id;
  success = success;
  scenario = q.scenario;
  new_node_id = new_node_id;
  detail = detail;
}

-- `fresh` is the identity that `_create_and_persist_identity` gives.
unfoldable pub recover_device :
    RecoveryRequest → NodeIdentity → BootstrapService → BootstrapService × Ended RecoveryResult
unfolding recovered increment_local_version
recover_device q fresh b = elim q.scenario [
  | identity_lost ↦ (
    record b { identity = some fresh },
    returned (
        recovered q true fresh.node_id
          "Identity lost. Generated fresh cryptographic identity and enrollment path."),
  )
  | state_lost_identity_intact ↦ elim b.sync [
    | none ↦ (b, raises recovery_error)
    | some sync ↦ (
      record b { sync = some (increment_local_version sync).0 },
      returned (
          recovered q true q.existing_node_id
            "Identity intact. Re-synchronized version maps and restored facts."),
    )
  ]
  | partial_state ↦ (b, returned (recovered q false "" "Unsupported or unknown recovery scenario"))
  | interrupted_bootstrap ↦
      (b, returned (recovered q false "" "Unsupported or unknown recovery scenario"))
  | revoked_node ↦ (b, returned (recovered q false "" "Unsupported or unknown recovery scenario"))
  | unknown ↦ (b, returned (recovered q false "" "Unsupported or unknown recovery scenario"))
]
