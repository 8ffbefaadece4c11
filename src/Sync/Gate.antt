-- ===== src/Sync/Gate.antt =====
-- src/shyam/sync/authenticator.py and service.py: which envelopes change the state of the service.
use shyam.Base.{
  ℕ, String, true, false, ◌≡◌, ◌≢◌, refl, ◌⊎◌, inl, inr, Option, none, some, List, str_discrete,
  arith, Option-cases, ◌∙◌,
}
use shyam.Sync.Authenticator.{
  Crypto, Verdict, precheck, pinned, check_signature, check_key, check_sender, with_record,
  authenticate_incoming,
}
use shyam.Sync.Ingest.{on_verdict, process_incoming_envelope}
use shyam.Sync.Models.{SyncEnvelope, sync_protocol_version}
use shyam.Sync.Service.{SyncState}
use shyam.Trust.Models.{TrustStatus, TrustEvent, TrustRecord, is_trusted}
use shyam.Trust.Service.{TrustState, Reply, ok, raised, get_record}

-- What the code checks of an envelope, stated over the trust records.
pub record IsAuthentic (crypto : Crypto) (e : SyncEnvelope) (r : TrustRecord) : Type 0 where
  pub same_protocol : e.protocol_version ≡ sync_protocol_version
  pub signed : e.signature ≢ ""
  pub named : e.sender_node_id ≢ ""
  pub trusted : r.status ≡ TrustStatus.trusted
  pub key : (pinned r ≡ none) ⊎ (pinned r ≡ some e.sender_public_key)
  pub verified : crypto.verify e.sender_public_key (crypto.signable e) e.signature ≡ some true

precheck-none :
    (e : SyncEnvelope)
    → precheck e ≡ none
    → (e.protocol_version ≡ sync_protocol_version) × (e.signature ≢ "") × (e.sender_node_id ≢ "")
unfolding precheck
precheck-none e h = (ground arith, λ p. ground arith, λ p. ground arith)

-- The first two steps of the code refuse and never accept.
precheck-refuses : (e : SyncEnvelope) {v : Verdict} → precheck e ≡ some v → v.0 ≡ false
unfolding precheck
precheck-refuses e h = ground arith

check_signature-verified :
    (crypto : Crypto) (key : String) (e : SyncEnvelope)
    → (check_signature crypto key e).0 ≡ true
    → crypto.verify key (crypto.signable e) e.signature ≡ some true
unfolding check_signature
check_signature-verified crypto key e h = ground arith

check_key-verified :
    (crypto : Crypto) (k : Option String) (e : SyncEnvelope)
    → (check_key crypto k e).0 ≡ true
    → ((k ≡ none) ⊎ (k ≡ some e.sender_public_key))
      × (crypto.verify e.sender_public_key (crypto.signable e) e.signature ≡ some true)
unfolding check_key
check_key-verified crypto none e h = (inl refl, ground arith)
check_key-verified crypto (some key) e h = (inr (ground arith), ground arith)

check_sender-verified :
    (crypto : Crypto) (r : TrustRecord) (e : SyncEnvelope)
    → (check_sender crypto r e).0 ≡ true
    → (r.status ≡ TrustStatus.trusted)
      × ((pinned r ≡ none) ⊎ (pinned r ≡ some e.sender_public_key))
      × (crypto.verify e.sender_public_key (crypto.signable e) e.signature ≡ some true)
unfolding check_sender is_trusted
check_sender-verified crypto r e h =
    let v : (check_key crypto (pinned r) e).0 ≡ true = ground arith in
    let (k, verified) = check_key-verified crypto (pinned r) e v in (ground arith, k, verified)

-- The verdict of the authenticator on an envelope that passes.
with_record-verified :
    (crypto : Crypto) (e : SyncEnvelope) (x : TrustState × Reply TrustRecord) (o : Verdict)
    (t : List TrustEvent)
    → (with_record crypto e x).1 ≡ ok o t
    → o.0 ≡ true
    → (r : TrustRecord) × (x.1 ≡ ok r t) × (check_sender crypto r e ≡ o)
unfolding with_record
with_record-verified crypto e (s, ok r events) o t h p = (r, cc, cc)
with_record-verified crypto e (s, raised f) o t h p = cc

-- An envelope is accepted only if the trust service knows its sender under a record for which the
-- envelope is authentic.
authenticate-IsAuthentic :
    (crypto : Crypto) (e : SyncEnvelope) (now : ℕ) (t : TrustState) (v : Verdict)
    (events : List TrustEvent)
    → (authenticate_incoming crypto e now t).1 ≡ ok v events
    → v.0 ≡ true
    → (r : TrustRecord) × ((get_record e.sender_node_id now t).1 ≡ ok r events)
      × IsAuthentic crypto e r
unfolding authenticate_incoming
authenticate-IsAuthentic crypto e now t v events h p = elim (Option-cases (precheck e)) [
  | inr (w, q) ↦ cc (precheck-refuses e q, rw (q, authenticate_incoming) at h)
  | inl q ↦
      let (protocol, signed, named) = precheck-none e q in
      let h' : (with_record crypto e (get_record e.sender_node_id now t)).1 ≡ ok v events =
        ground arith in
      let (r, known, c) =
        with_record-verified crypto e (get_record e.sender_node_id now t) v events h' p in
      let (trusted, key, verified) = check_sender-verified crypto r e (rw c p) in
      (
        r,
        known,
        record {
          same_protocol = protocol;
          signed = signed;
          named = named;
          trusted = trusted;
          key = key;
          verified = verified;
        },
      )
]

on_verdict-changes :
    (e : SyncEnvelope) (s : SyncState) (r : Reply Verdict)
    → ((on_verdict e s r).0 ≡ s)
      ⊎ ((v : Verdict) × (events : List TrustEvent) × (r ≡ ok v events) × (v.0 ≡ true))
unfolding on_verdict
on_verdict-changes e s (ok (true, o, d) events) = inr ((true, o, d), events, refl, refl)
on_verdict-changes e s (ok (false, o, d) events) = inl refl
on_verdict-changes e s (raised f) = inl refl

pub process-own :
    (crypto : Crypto) (e : SyncEnvelope) (now : ℕ) (s : SyncState) (t : TrustState)
    → e.sender_node_id ≡ s.local_node_id
    → (process_incoming_envelope crypto e now s t).0 ≡ s
unfolding process_incoming_envelope
process-own crypto e now s t h = ground arith

pub process-other :
    (crypto : Crypto) (e : SyncEnvelope) (now : ℕ) (s : SyncState) (t : TrustState)
    → e.sender_node_id ≢ s.local_node_id
    → (process_incoming_envelope crypto e now s t).0
      ≡ (on_verdict e s (authenticate_incoming crypto e now t).1).0
unfolding process_incoming_envelope
process-other crypto e now s t h = ground arith

-- Processing an envelope either leaves the whole sync state as it was, or the envelope comes from
-- another node whose trust record, read at that moment, is TRUSTED; it has the supported protocol
-- version and a signature, its key is the pinned one where a key is pinned, and the signature
-- verifies under that key.
pub process-gate :
    (crypto : Crypto) (e : SyncEnvelope) (now : ℕ) (s : SyncState) (t : TrustState)
    → ((process_incoming_envelope crypto e now s t).0 ≡ s)
      ⊎ ((e.sender_node_id ≢ s.local_node_id)
          × (r : TrustRecord) × (events : List TrustEvent) × ((get_record e.sender_node_id now t).1
              ≡ ok r events)
          × IsAuthentic crypto e r)
process-gate crypto e now s t = elim (str_discrete e.sender_node_id s.local_node_id) [
  | yes own ↦ inl (process-own crypto e now s t own)
  | no other ↦ elim (on_verdict-changes e s (authenticate_incoming crypto e now t).1) [
    | inl same ↦ inl (process-other crypto e now s t other ∙ same)
    | inr (v, events, a, valid) ↦
        let (r, known, authentic) = authenticate-IsAuthentic crypto e now t v events a valid in
        inr (other, r, events, known, authentic)
  ]
]
