-- ===== src/Bootstrap/Sessions.antt =====
-- src/shyam/bootstrap/service.py: how an attempt of `execute_client_bootstrap` ends.
use shyam.Base.{ℕ, String, true, ◌≡◌, refl, Option, none, some, inl, inr, Bool-cases, arith}
use shyam.Base.Dict
use shyam.Base.Dict.{get-put_self}
use shyam.Bootstrap.Authority.{Signing}
use shyam.Bootstrap.Client.{
  BootstrapService, Answer, responded, lost, identity_missing, sync_missing, invalid_transition,
  recovery_error, transport_failed, refused, trust_failed, returned, raises, Outcome, keep_session,
  advance, give_up, on_granted, on_answer, on_sync, on_identity, execute_client_bootstrap,
}
use shyam.Bootstrap.Models.{
  BootstrapState, uninitialized, identity_ready, bootstrap_requested, authenticating,
  trust_established, ready, failed, rejected, BootstrapRequest, BootstrapSession, new_session,
  transition, is_allowed,
}
use shyam.Identity.{NodeIdentity}
use shyam.Sync.Service.{SyncState}
use shyam.Trust.Models.{TrustRecord}
use shyam.Trust.Service.{TrustState, Reply, ok, raised}
use shyam.Trust.Store.{Write}

-- The service keeps the session of the attempt in a state.
pub record Kept (id : String) (state : BootstrapState) (b : BootstrapService) : Type 0 where
  pub session : BootstrapSession
  pub kept : Dict.get id b.sessions ≡ some session
  pub state_of : session.state ≡ state

-- How an attempt of a session may end: with the session that is kept as READY; with a failed
-- transport or a refusal, and the session kept as FAILED or REJECTED; or before that, or in the trust
-- service, with the session left as it was created.
unfoldable pub Ends : String → Outcome → Type 0
Ends id (b, returned s) = (s.state ≡ ready) × (Dict.get id b.sessions ≡ some s)
Ends id (b, raises identity_missing) = Kept id uninitialized b
Ends id (b, raises sync_missing) = Kept id uninitialized b
Ends id (b, raises invalid_transition) = ⊥
Ends id (b, raises recovery_error) = ⊥
Ends id (b, raises (transport_failed _)) = Kept id failed b
Ends id (b, raises (refused _ _)) = Kept id rejected b
Ends id (b, raises (trust_failed _)) = Kept id uninitialized b

module _ (now : ℕ) (s : BootstrapSession) (b : BootstrapService) where
  keep_session-Kept : Kept s.session_id s.state (keep_session s b)
  unfolding keep_session
  keep_session-Kept = record {
    session = s;
    kept = get-put_self s.session_id s b.sessions;
    state_of = refl;
  }

  on_granted-Ends :
      (sync : SyncState) (granted : TrustState × Reply TrustRecord)
      → s.state ≡ trust_established
      → Kept s.session_id uninitialized b
      → Ends s.session_id (on_granted now sync s b granted)
  unfolding Ends on_granted advance keep_session transition is_allowed
  on_granted-Ends sync (t, raised e) h k = record {
    session = k.session;
    kept = k.kept;
    state_of = k.state_of;
  }
  on_granted-Ends sync (t, ok r events) h k = rw h (refl, get-put_self s.session_id _ b.sessions)

  -- Where the table allows the transition, the rest runs on the session in its new state.
  pub advance_allowed :
      (new : BootstrapState) (rest : BootstrapSession → Outcome)
      → is_allowed s.state new ≡ true
      → advance new now s b rest ≡ rest (record s { state = new; updated_at = now })
  unfolding advance transition
  advance_allowed new rest h = ground arith

on_answer-Ends :
    (now : ℕ) (s : BootstrapSession) (b : BootstrapService) (write : Write) (i : NodeIdentity)
    (sync : SyncState) (a : Answer)
    → s.state ≡ authenticating
    → Kept s.session_id uninitialized b
    → Ends s.session_id (on_answer write now i sync s b a)
unfolding on_answer give_up Ends is_allowed
on_answer-Ends now s b write i sync (lost e) h k =
    rw (advance_allowed now s b failed _ (rw h refl)) (keep_session-Kept now _ b)
on_answer-Ends now s b write i sync (responded r) h k = elim (Bool-cases r.accepted) [
  | inl e ↦
      rw (e, advance_allowed now s b trust_established _ (rw h refl))
        (on_granted-Ends now (record s { state = trust_established; updated_at = now }) b sync _
          refl k)
  | inr e ↦ rw (e, advance_allowed now s b rejected _ (rw h refl)) (keep_session-Kept now _ b)
]

module _ (g : Signing) (transport : String → BootstrapRequest → Answer) (write : Write)
    (endpoint : String) (now : ℕ) (s : BootstrapSession) (b : BootstrapService)
    (h : s.state ≡ bootstrap_requested) (k : Kept s.session_id uninitialized b) where
  on_sync-Ends :
      (i : NodeIdentity) (o : Option SyncState)
      → Ends s.session_id (on_sync g transport write endpoint now i s b o)
  unfolding on_sync Ends is_allowed
  on_sync-Ends i none = k
  on_sync-Ends i (some sync) = rw (advance_allowed now s b authenticating _ (rw h refl)) (
      on_answer-Ends now (record s { state = authenticating; updated_at = now }) b write i sync _
        refl k)

  on_identity-Ends :
      (o : Option NodeIdentity)
      → Ends s.session_id (on_identity g transport write endpoint now s b o)
  unfolding on_identity Ends
  on_identity-Ends none = k
  on_identity-Ends (some i) = on_sync-Ends i b.sync

-- Every attempt comes to an end, without a transition that the table forbids: it returns a READY
-- session that the service keeps; or the transport fails or the authority refuses, and the service
-- keeps the session as FAILED or REJECTED; or the identity or the sync service is missing or the
-- trust service raises, and the service keeps the session as UNINITIALIZED.
pub execute_client_bootstrap-Ends :
    (g : Signing) (transport : String → BootstrapRequest → Answer) (write : Write)
    (endpoint session_id : String) (now : ℕ) (b : BootstrapService)
    → Ends session_id (execute_client_bootstrap g transport write endpoint session_id now b)
unfolding execute_client_bootstrap new_session is_allowed
execute_client_bootstrap-Ends g transport write endpoint session_id now b =
    let s = new_session session_id now in
    let b' = keep_session s b in
    let identified = record s { state = identity_ready } in
    let asked = record s { state = bootstrap_requested } in
    rw (advance_allowed now s b' identity_ready _ refl) (
      rw (advance_allowed now identified b' bootstrap_requested _ refl) (
        on_identity-Ends g transport write endpoint now asked b' refl (keep_session-Kept now s b)
          b'.identity))
