-- ===== src/Trust/Decisions.antt =====
-- src/shyam/trust/service.py: who is trusted after a history of grants and revocations.
use shyam.Base.{
  ℕ, String, Bool, true, false, ◌≡◌, refl, ◌∙◌, ap, Option, none, some, List, [], ◌∷◌, ite,
  str_discrete, arith,
}
use shyam.Base.Dict
use shyam.Base.Dict.{Dict, get-put}
use shyam.Trust.Models.{RelationshipType, TrustRecord, is_trusted, trust_status_discrete}
use shyam.Trust.Service.{
  TrustState, ok, Call, grant, revoke, step, run, node_is_trusted, granted_record, revoked_record,
  grant_trust, revoke_trust, record_of,
}
use shyam.Values.{Value}

-- What `is_trusted` answers once the records are loaded.
abbrev pub trusted : String → Dict TrustRecord → Bool
trusted j records = is_trusted (record_of j 0 records)

-- The specification: the last call about a node decides, and before any the loaded records do.
abbrev pub standing : String → Bool → List Call → Bool
standing j before [] = before
standing j before (grant _ id _ _ _ _ _ ∷ cs) = standing j (ite (str_discrete id j) true before) cs
standing j before (revoke _ id _ _ ∷ cs) = standing j (ite (str_discrete id j) false before) cs

granted_record-trusted :
    (id : String) (key : Option String) (r : RelationshipType) (alias : String)
    (metadata : Option (Dict Value)) (now : ℕ) (old : Option TrustRecord)
    → is_trusted (granted_record id key r alias metadata now old) ≡ true
unfolding granted_record is_trusted trust_status_discrete
granted_record-trusted id key r alias metadata now none = refl
granted_record-trusted id key r alias metadata now (some old) = refl

revoked_record-untrusted :
    (id : String) (reason : Option String) (now : ℕ) (old : Option TrustRecord)
    → is_trusted (revoked_record id reason now old) ≡ false
unfolding revoked_record is_trusted trust_status_discrete
revoked_record-untrusted id reason now none = refl
revoked_record-untrusted id reason now (some old) = refl

trusted-put :
    (j id : String) (r : TrustRecord) (records : Dict TrustRecord)
    → trusted j (Dict.put id r records) ≡ ite (str_discrete id j) (is_trusted r) (trusted j records)
unfolding record_of
trusted-put j id r records = ground (arith, get-put j id r records)

trusted-step :
    (j : String) (c : Call) (cs : List Call) (s : TrustState)
    → standing j (trusted j (step s c).records) cs ≡ standing j (trusted j s.records) (c ∷ cs)
unfolding step grant_trust revoke_trust
trusted-step j (grant w id key r alias metadata now) cs s =
    ap (λ b. standing j b cs)
      (trusted-put j id _ s.records
        ∙ ap (λ b. ite (str_discrete id j) b (trusted j s.records))
            (granted_record-trusted id key r alias metadata now (Dict.get id s.records)))
trusted-step j (revoke w id reason now) cs s =
    ap (λ b. standing j b cs)
      (trusted-put j id _ s.records
        ∙ ap (λ b. ite (str_discrete id j) b (trusted j s.records))
            (revoked_record-untrusted id reason now (Dict.get id s.records)))

trusted-run :
    (j : String) (s : TrustState) (cs : List Call)
    → trusted j (run s cs).records ≡ standing j (trusted j s.records) cs
unfolding run
trusted-run j s [] = refl
trusted-run j s (c ∷ cs) = trusted-run j (step s c) cs ∙ trusted-step j c cs s

initialized-step : (s : TrustState) (c : Call) → (step s c).initialized ≡ s.initialized
unfolding step grant_trust revoke_trust
initialized-step s (grant w id key r alias metadata now) = refl
initialized-step s (revoke w id reason now) = refl

initialized-run : (s : TrustState) (cs : List Call) → (run s cs).initialized ≡ s.initialized
unfolding run
initialized-run s [] = refl
initialized-run s (c ∷ cs) = initialized-run (step s c) cs ∙ initialized-step s c

-- The clock reading for a missing record does not matter.
trusted-now :
    (j : String) (now : ℕ) (records : Dict TrustRecord)
    → is_trusted (record_of j now records) ≡ trusted j records
unfolding record_of is_trusted
trusted-now j now records = ground arith

-- In a service that has loaded its records, after any history of grants and revocations and whether
-- or not their writes succeed, `is_trusted` answers without an error, and says yes exactly if the
-- last call about the node was a grant, or if there was none and the node was trusted before.
pub node_is_trusted-run :
    (j : String) (now : ℕ) (s : TrustState) (cs : List Call)
    → s.initialized ≡ true
    → (node_is_trusted j now (run s cs)).1 ≡ ok (standing j (trusted j s.records) cs) []
unfolding node_is_trusted
node_is_trusted-run j now s cs e =
    rw (initialized-run s cs ∙ e)
      (ap (λ b. ok b []) (trusted-now j now (run s cs).records ∙ trusted-run j s cs))
