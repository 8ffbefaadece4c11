-- ===== src/Sync/Authenticator.antt =====
-- src/shyam/sync/authenticator.py. The canonical bytes of an envelope, base64 and Ed25519 are the
-- parameter `Crypto`: `signable` gives the bytes without the signature, `sign` a base64 signature of
-- a private key, and `verify` is `none` where decoding or verification raises.
use shyam.Base.{
  ℕ, String, ◌<>◌, Bool, true, false, Option, none, some, [], ite, if◌then◌else◌, str_discrete,
}
use shyam.Sync.Models.{
  SyncEnvelope, SyncOutcome, sync_protocol_version, is_signed, applied, rejected_untrusted,
  rejected_invalid_signature, rejected_protocol_mismatch, rejected_malformed, rejected_revoked,
}
use shyam.Trust.Models.{TrustRecord, is_trusted, is_revoked}
use shyam.Trust.Service.{TrustState, Reply, ok, raised, get_record}

pub record Crypto : Type 0 where
  pub signable : SyncEnvelope → String
  pub sign : String → String → String
  pub verify : String → String → String → Option Bool

-- `tuple[bool, SyncOutcome, str]`
abbrev pub Verdict : Type 0
Verdict = Bool × SyncOutcome × String

unfoldable pub sign_envelope : Crypto → SyncEnvelope → String → SyncEnvelope
sign_envelope crypto e private_key = record e {
  signature = crypto.sign private_key (crypto.signable e);
}

-- Steps 1 and 2, before the trust store is asked.
unfoldable pub precheck : SyncEnvelope → Option Verdict
unfolding is_signed
precheck e =
    ite (str_discrete e.protocol_version sync_protocol_version)
      (if is_signed e
        then ite (str_discrete e.sender_node_id "")
            (some (false, rejected_malformed, "Envelope missing sender_node_id")) none
        else some (false, rejected_invalid_signature, "Envelope is unsigned"))
      (some (
        false,
        rejected_protocol_mismatch,
        "Unsupported protocol version '" <> e.protocol_version <> "', expected '"
            <> sync_protocol_version <> "'",
      ))

-- A pinned key, where one is recorded and is not the empty text.
unfoldable pub pinned : TrustRecord → Option String
pinned r = elim r.public_key [ none ↦ none | some key ↦ ite (str_discrete key "") none (some key) ]

-- Step 5: the signature over the canonical bytes.
unfoldable pub check_signature : Crypto → String → SyncEnvelope → Verdict
check_signature crypto key e = elim (crypto.verify key (crypto.signable e) e.signature) [
  | none ↦ (false, rejected_invalid_signature, "Signature parsing or verification error")
  | some valid ↦
      if valid
      then (true, applied, "Authentication successful")
      else (false, rejected_invalid_signature, "Ed25519 signature verification failed")
]

-- Step 4: a pinned key must be the key of the envelope.
unfoldable pub check_key : Crypto → Option String → SyncEnvelope → Verdict
unfolding check_signature
check_key crypto none e =
    ite (str_discrete e.sender_public_key "")
      (false, rejected_malformed, "No public key available for node '" <> e.sender_node_id <> "'")
      (check_signature crypto e.sender_public_key e)
check_key crypto (some key) e =
    ite (str_discrete key e.sender_public_key) (check_signature crypto key e) (
      false,
      rejected_invalid_signature,
      "Envelope public key does not match pinned trust key for node '" <> e.sender_node_id <> "'",
    )

-- Steps 3 to 5, on the record of the sender.
unfoldable pub check_sender : Crypto → TrustRecord → SyncEnvelope → Verdict
unfolding pinned check_key
check_sender crypto r e =
    if is_revoked r
    then (false, rejected_revoked, "Node '" <> e.sender_node_id <> "' trust standing is REVOKED")
    else if is_trusted r
    then check_key crypto (pinned r) e
    else (
      false,
      rejected_untrusted,
      "Node '" <> e.sender_node_id <> "' is not in local trust store",
    )

unfoldable pub with_record :
    Crypto → SyncEnvelope → TrustState × Reply TrustRecord → TrustState × Reply Verdict
unfolding check_sender
with_record crypto e (t, ok r events) = (t, ok (check_sender crypto r e) events)
with_record crypto e (t, raised failure) = (t, raised failure)

unfoldable pub authenticate_incoming :
    Crypto → SyncEnvelope → ℕ → TrustState → TrustState × Reply Verdict
unfolding precheck with_record
authenticate_incoming crypto e now t = elim (precheck e) [
  | some v ↦ (t, ok v [])
  | none ↦ with_record crypto e (get_record e.sender_node_id now t)
]
