-- ===== src/Bootstrap/Authority.antt =====
-- src/shyam/bootstrap/service.py: `handle_incoming_request`. Ed25519, base64 and the ISO format of
-- times are the parameter `Signing`.
use shyam.Base.{
  ℕ, String, ◌<>◌, Bool, true, false, Option, none, some, [], ite, if◌then◌else◌, str_discrete,
}
use shyam.Base.Text.{first_chars}
use shyam.Bootstrap.Models.{
  BootstrapOutcome, success, rejected_signature, rejected_revoked, BootstrapRequest,
  BootstrapResponse,
}
use shyam.Identity.{NodeIdentity}
use shyam.Trust.Models.{TrustRecord, RelationshipType, is_revoked}
use shyam.Trust.Service.{TrustState, Reply, ok, raised, get_record, grant_trust}
use shyam.Trust.Store.{Write}

-- What `verify_with_public_key` answers, or the text of what decoding the signature raises.
pub data Checked : Type 0 where
  answered : Bool → Checked
  broken : String → Checked

pub record Signing : Type 0 where
  pub isoformat : ℕ → String
  pub sign : String → String → String
  pub verify : String → String → String → Checked

-- `f"{request_id}:{node_id}:{public_key}:{timestamp.isoformat()}"`
unfoldable pub signable : Signing → String → String → String → ℕ → String
signable g request_id node_id public_key timestamp =
    request_id <> ":" <> node_id <> ":" <> public_key <> ":" <> g.isoformat timestamp

-- What the service was built with: the identity, and the public key of the sync service.
pub record Authority : Type 0 where
  pub identity : Option NodeIdentity
  pub sync_key : Option String

unfoldable pub refusal : String → String → BootstrapOutcome → BootstrapResponse
refusal request_id reason outcome = record {
  request_id = request_id;
  accepted = false;
  authority_node_id = "";
  authority_public_key = "";
  rejection_reason = reason;
  outcome = outcome;
}

abbrev pub or_empty : Option String → String
or_empty none = ""
or_empty (some t) = t

abbrev pub id_of : Option NodeIdentity → String
id_of none = ""
id_of (some i) = i.node_id

unfoldable pub acceptance : Authority → String → BootstrapResponse
acceptance a request_id = record {
  request_id = request_id;
  accepted = true;
  authority_node_id = id_of a.identity;
  authority_public_key = or_empty a.sync_key;
  rejection_reason = "";
  outcome = success;
}

-- `request.node_name or f"node-{request.node_id[:8]}"`
unfoldable pub alias_of : BootstrapRequest → String
unfolding first_chars
alias_of q = ite (str_discrete q.node_name "") ("node-" <> first_chars 8 q.node_id) q.node_name

-- The answer once the trust is granted, or what the grant raised.
unfoldable pub granted_reply :
    Authority → String → TrustState × Reply TrustRecord → TrustState × Reply BootstrapResponse
unfolding acceptance
granted_reply a request_id (t, ok _ events) = (t, ok (acceptance a request_id) events)
granted_reply a request_id (t, raised e) = (t, raised e)

-- Steps 2 to 4, on the record of the requesting node. Reading it publishes nothing.
unfoldable pub on_record :
    Authority
    → Write
    → BootstrapRequest
    → ℕ
    → TrustState × Reply TrustRecord
    → TrustState × Reply BootstrapResponse
unfolding is_revoked refusal granted_reply grant_trust alias_of
on_record a write q now (t, raised e) = (t, raised e)
on_record a write q now (t, ok r _) =
    if is_revoked r
    then (
      t,
      ok (refusal q.request_id ("Node '" <> q.node_id <> "' is REVOKED") rejected_revoked) [],
    )
    else granted_reply a q.request_id (
        grant_trust write q.node_id (some q.public_key) RelationshipType.peer (alias_of q) none now
          t)

-- Step 1, and what follows if the signature verifies.
unfoldable pub on_check :
    Authority
    → Write
    → BootstrapRequest
    → ℕ
    → TrustState
    → Checked
    → TrustState × Reply BootstrapResponse
unfolding refusal on_record get_record
on_check a write q now t (broken e) =
    (t, ok (refusal q.request_id ("Signature validation error: " <> e) rejected_signature) [])
on_check a write q now t (answered valid) =
    if valid then on_record a write q now (get_record q.node_id now t) else (
      t,
      ok (refusal q.request_id "Cryptographic signature verification failed" rejected_signature) [],
    )

unfoldable pub handle_incoming_request :
    Signing
    → Authority
    → Write
    → BootstrapRequest
    → ℕ
    → TrustState
    → TrustState × Reply BootstrapResponse
unfolding signable on_check
handle_incoming_request g a write q now t =
    on_check a write q now t (
      g.verify q.public_key (signable g q.request_id q.node_id q.public_key q.timestamp)
        q.signature)
