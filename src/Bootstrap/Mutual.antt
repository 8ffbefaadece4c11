-- ===== src/Bootstrap/Mutual.antt =====
-- src/shyam/bootstrap/service.py: a client and an authority in one exchange.
use shyam.Base.{ℕ, String, true, false, ◌≡◌, ◌≢◌, refl, ◌∙◌, sym, subst, ap, none, some}
use shyam.Base.Dict.{Dict}
use shyam.Bootstrap.Admission.{
  Pins, check_of, admitted, admitted-Pins, on_check-admitted, grant_trust-Pins,
}
use shyam.Bootstrap.Authority.{
  answered, Signing, Authority, or_empty, id_of, acceptance, granted_reply, handle_incoming_request,
}
use shyam.Bootstrap.Client.{
  BootstrapService, Answer, responded, lost, returned, keep_session, advance, request_of,
  on_granted, on_answer, on_sync, on_identity, execute_client_bootstrap,
}
use shyam.Bootstrap.Models.{
  trust_established, authenticating, ready, bootstrap_requested, BootstrapRequest,
  BootstrapResponse, BootstrapSession, new_session, transition, is_allowed,
}
use shyam.Bootstrap.Sessions.{advance_allowed}
use shyam.Identity.{NodeIdentity}
use shyam.Sync.Service.{SyncState}
use shyam.Trust.Models.{TrustRecord, RelationshipType, is_revoked}
use shyam.Trust.Service.{TrustState, Reply, ok, raised, grant_trust, record_of, store}
use shyam.Trust.Store.{succeeds, save}

-- The transport that hands a request to an authority, and its answer back.
unfoldable pub answer_of : Reply BootstrapResponse → Answer
answer_of (ok r _) = responded r
answer_of (raised _) = lost ""

unfoldable pub direct : Signing → Authority → ℕ → TrustState → String → BootstrapRequest → Answer
unfolding answer_of
direct g a now t endpoint q = answer_of (handle_incoming_request g a succeeds q now t).1

-- The session of an attempt when its request is made.
abbrev pub asking : String → ℕ → BootstrapSession
asking session_id now = record (new_session session_id now) { state = bootstrap_requested }

execute-asks :
    (g : Signing) (transport : String → BootstrapRequest → Answer) (endpoint session_id : String)
    (now : ℕ) (b : BootstrapService) (i : NodeIdentity) (sync : SyncState)
    → b.identity ≡ some i
    → b.sync ≡ some sync
    → execute_client_bootstrap g transport succeeds endpoint session_id now b
      ≡ on_answer succeeds now i sync
          (record (asking session_id now) { state = authenticating })
          (keep_session (new_session session_id now) b)
          (transport endpoint (request_of g i sync (asking session_id now)))
unfolding execute_client_bootstrap keep_session advance transition is_allowed on_identity on_sync
    new_session
execute-asks g transport endpoint session_id now b i sync hi hs =
    let s = asking session_id now in
    let b' = keep_session (new_session session_id now) b in
    ap (on_identity g transport succeeds endpoint now s b') hi
    ∙ ap (on_sync g transport succeeds endpoint now i s b') hs

-- The answer to an accepted request.
on_answer-accepted :
    (now : ℕ) (i : NodeIdentity) (sync : SyncState) (s : BootstrapSession) (b : BootstrapService)
    (r : BootstrapResponse)
    → r.accepted ≡ true
    → s.state ≡ authenticating
    → r.authority_public_key ≢ ""
    → let after = on_answer succeeds now i sync s b (responded r) in
      ((s' : BootstrapSession) × (after.1 ≡ returned s') × (s'.state ≡ ready))
      × Pins r.authority_node_id r.authority_public_key after.0.trust.records
unfolding on_answer advance transition is_allowed on_granted grant_trust store save
on_answer-accepted now i sync s b r h st k =
    rw (h, advance_allowed now s b trust_established _ (rw st refl))
      (
        (_, refl, refl),
        grant_trust-Pins succeeds r.authority_node_id r.authority_public_key
            RelationshipType.infrastructure "Bootstrap Authority" none now b.trust k,
      )

direct-accepted :
    (g : Signing) (a : Authority) (q : BootstrapRequest) (now : ℕ) (t : TrustState)
    (endpoint : String)
    → t.initialized ≡ true
    → is_revoked (record_of q.node_id now t.records) ≡ false
    → check_of g q ≡ answered true
    → (direct g a now t endpoint q ≡ responded (acceptance a q.request_id))
      × ((handle_incoming_request g a succeeds q now t).0 ≡ (admitted a q now t).0)
unfolding direct handle_incoming_request granted_reply grant_trust store save
direct-accepted g a q now t endpoint h r v = rw (v, on_check-admitted a q now t h r) (refl, refl)

Pins-subst :
    (id id' key key' : String) (records : Dict TrustRecord)
    → id ≡ id'
    → key ≡ key'
    → Pins id key records
    → Pins id' key' records
Pins-subst id id' key key' records p q x =
    subst (λ j. Pins j key' records) p (subst (λ k. Pins id k records) q x)

-- A device with an identity and a key pair that signs, and an authority with both that has loaded its
-- records and does not hold the device as revoked: an attempt over a direct transport returns a
-- READY session, after which each trusts the other and pins its key.
pub bootstrap-mutual :
    (g : Signing) (a : Authority) (t : TrustState) (b : BootstrapService) (i j : NodeIdentity)
    (sync : SyncState) (key endpoint session_id : String) (now : ℕ)
    → b.identity ≡ some i
    → b.sync ≡ some sync
    → ((text : String)
        → g.verify sync.public_key text (g.sign sync.private_key text) ≡ answered true)
    → sync.public_key ≢ ""
    → a.identity ≡ some j
    → a.sync_key ≡ some key
    → key ≢ ""
    → t.initialized ≡ true
    → is_revoked (record_of i.node_id now t.records) ≡ false
    → let after =
        execute_client_bootstrap g (direct g a now t) succeeds endpoint session_id now b in
      ((s : BootstrapSession) × (after.1 ≡ returned s) × (s.state ≡ ready))
      × Pins j.node_id key after.0.trust.records
      × Pins i.node_id sync.public_key
          (handle_incoming_request g a succeeds
            (request_of g i sync (asking session_id now))
            now
            t).0.records
unfolding request_of acceptance
bootstrap-mutual g a t b i j sync key endpoint session_id now hi hs law k hj ha n ht hr =
    let q = request_of g i sync (asking session_id now) in
    let (answer, trust) = direct-accepted g a q now t endpoint ht hr (law _) in
    let b' = keep_session (new_session session_id now) b in
    let s = record (asking session_id now) { state = authenticating } in
    let r = acceptance a q.request_id in
    let (done, pins) =
      on_answer-accepted now i sync s b' r refl refl (λ e. n (sym (ap or_empty ha) ∙ e)) in
    rw (execute-asks g (direct g a now t) endpoint session_id now b i sync hi hs, answer)
      (
        done,
        Pins-subst _ j.node_id _ key _ (ap id_of hj) (ap or_empty ha) pins,
        rw trust (admitted-Pins a q now t k),
      )
