-- ===== src/Bootstrap/Admission.antt =====
-- src/shyam/bootstrap/service.py: whom `handle_incoming_request` admits, and what that means to
-- src/shyam/sync/authenticator.py.
use shyam.Base.{
  ℕ, String, Bool, true, false, ◌≡◌, ◌≢◌, ◌↔◌, refl, Option, none, some, [], arith, inl, inr,
  Bool-cases,
}
use shyam.Base.Dict
use shyam.Base.Dict.{Dict, get-put_self}
use shyam.Bootstrap.Authority.{
  Checked, answered, broken, Signing, signable, Authority, granted_reply, on_check, on_record,
  acceptance, refusal, alias_of, handle_incoming_request,
}
use shyam.Bootstrap.Models.{BootstrapRequest, BootstrapResponse}
use shyam.Trust.Models.{TrustStatus, TrustRecord, RelationshipType, is_revoked}
use shyam.Trust.Service.{
  TrustState, Reply, ok, raised, get_record, grant_trust, granted_record, record_of, store,
}
use shyam.Trust.Store.{Write, succeeds, save}
use shyam.Values.{Value}

-- The response accepts the request.
unfoldable pub accepts : Reply BootstrapResponse → Bool
accepts (ok r _) = r.accepted
accepts (raised _) = false

-- What the signature of a request must be checked against.
abbrev pub check_of : Signing → BootstrapRequest → Checked
check_of g q =
    g.verify q.public_key (signable g q.request_id q.node_id q.public_key q.timestamp) q.signature

-- The records trust a node and pin its key.
pub record Pins (node_id key : String) (records : Dict TrustRecord) : Type 0 where
  pub entry : TrustRecord
  pub entry_in : Dict.get node_id records ≡ some entry
  pub is_trusted_in : entry.status ≡ TrustStatus.trusted
  pub key_in : entry.public_key ≡ some key

pub get_record-initialized :
    (id : String) (now : ℕ) (t : TrustState)
    → t.initialized ≡ true
    → get_record id now t ≡ (t, ok (record_of id now t.records) [])
unfolding get_record
get_record-initialized id now t h = ground arith

granted_record-key :
    (id key : String) (rel : RelationshipType) (alias : String) (metadata : Option (Dict Value))
    (now : ℕ) (old : Option TrustRecord)
    → key ≢ ""
    → ((granted_record id (some key) rel alias metadata now old).public_key ≡ some key)
      × ((granted_record id (some key) rel alias metadata now old).status ≡ TrustStatus.trusted)
unfolding granted_record
granted_record-key id key rel alias metadata now none h = (refl, refl)
granted_record-key id key rel alias metadata now (some old) h = (ground arith, refl)

-- A grant with a key, written or not, pins the key.
pub grant_trust-Pins :
    (write : Write) (id key : String) (rel : RelationshipType) (alias : String)
    (metadata : Option (Dict Value)) (now : ℕ) (t : TrustState)
    → key ≢ ""
    → Pins id key (grant_trust write id (some key) rel alias metadata now t).0.records
unfolding grant_trust store
grant_trust-Pins write id key rel alias metadata now t h =
    let old = Dict.get id t.records in
    let facts = granted_record-key id key rel alias metadata now old h in
    record {
      entry = granted_record id (some key) rel alias metadata now old;
      entry_in = get-put_self id _ t.records;
      is_trusted_in = facts.1;
      key_in = facts.0;
    }

abbrev pub admitted :
    Authority → BootstrapRequest → ℕ → TrustState → TrustState × Reply BootstrapResponse
admitted a q now t = granted_reply a q.request_id (
    grant_trust succeeds q.node_id (some q.public_key) RelationshipType.peer (alias_of q) none now
      t)

pub on_check-admitted :
    (a : Authority) (q : BootstrapRequest) (now : ℕ) (t : TrustState)
    → t.initialized ≡ true
    → is_revoked (record_of q.node_id now t.records) ≡ false
    → on_check a succeeds q now t (answered true) ≡ admitted a q now t
unfolding on_check on_record
on_check-admitted a q now t h r = rw (get_record-initialized q.node_id now t h, r) refl

on_check-revoked :
    (a : Authority) (write : Write) (q : BootstrapRequest) (now : ℕ) (t : TrustState)
    → t.initialized ≡ true
    → is_revoked (record_of q.node_id now t.records) ≡ true
    → (accepts (on_check a write q now t (answered true)).1 ≡ false)
      × ((on_check a write q now t (answered true)).0 ≡ t)
unfolding on_check on_record accepts refusal
on_check-revoked a write q now t h r = rw (get_record-initialized q.node_id now t h, r) (refl, refl)

admitted-accepts :
    (a : Authority) (q : BootstrapRequest) (now : ℕ) (t : TrustState)
    → accepts (admitted a q now t).1 ≡ true
unfolding accepts granted_reply grant_trust store save acceptance
admitted-accepts a q now t = refl

pub admitted-Pins :
    (a : Authority) (q : BootstrapRequest) (now : ℕ) (t : TrustState)
    → q.public_key ≢ ""
    → Pins q.node_id q.public_key (admitted a q now t).0.records
unfolding granted_reply grant_trust store save
admitted-Pins a q now t =
    grant_trust-Pins succeeds q.node_id q.public_key RelationshipType.peer (alias_of q) none now t

-- What an authority makes of a check: it admits the node and pins its key, or leaves its trust alone.
abbrev pub Decides :
    BootstrapRequest → ℕ → TrustState → Checked → TrustState × Reply BootstrapResponse → Type 0
Decides q now t c (t', reply) =
    ((accepts reply ≡ true)
      ↔ (c ≡ answered true) × (is_revoked (record_of q.node_id now t.records) ≡ false))
    × (accepts reply ≡ true → Pins q.node_id q.public_key t'.records)
    × (accepts reply ≡ false → t' ≡ t)

on_check-Decides :
    (a : Authority) (q : BootstrapRequest) (now : ℕ) (t : TrustState) (c : Checked)
    → t.initialized ≡ true
    → q.public_key ≢ ""
    → Decides q now t c (on_check a succeeds q now t c)
unfolding on_check accepts refusal
on_check-Decides a q now t (broken e) h k = ((λ x. cc, λ x. cc), λ x. cc, λ _. refl)
on_check-Decides a q now t (answered false) h k = ((λ x. cc, λ x. cc), λ x. cc, λ _. refl)
on_check-Decides a q now t (answered true) h k =
    elim (Bool-cases (is_revoked (record_of q.node_id now t.records))) [
      | inl r ↦
          let (refused, same) = on_check-revoked a succeeds q now t h r in
          ((λ x. cc, λ x. cc), λ x. cc, λ _. same)
      | inr r ↦ rw (on_check-admitted a q now t h r) (
        (λ _. (refl, r), λ _. admitted-accepts a q now t),
        λ _. admitted-Pins a q now t k,
        λ x. ground (arith, admitted-accepts a q now t),
      )
    ]

-- An authority that has loaded its records, and can write them, accepts a request that has a public
-- key exactly if its signature verifies under that key and the node is not revoked; it then trusts
-- the node and pins the key, and otherwise its trust stays as it was.
pub handle_incoming_request-Decides :
    (g : Signing) (a : Authority) (q : BootstrapRequest) (now : ℕ) (t : TrustState)
    → t.initialized ≡ true
    → q.public_key ≢ ""
    → Decides q now t (check_of g q) (handle_incoming_request g a succeeds q now t)
unfolding handle_incoming_request
handle_incoming_request-Decides g a q now t h k = on_check-Decides a q now t (check_of g q) h k
