-- ===== src/Trust/Restart.antt =====
-- src/shyam/trust/store.py and service.py: a service started on the file that another one saved.
use mathlib.Core.Option
use shyam.Base.{
  ℕ, String, ◌≡◌, refl, sym, ap, ◌∙◌, subst, Option, none, some, List, [], ◌∷◌, str_discrete, arith,
  All, true,
}
use shyam.Base.Dict
use shyam.Base.Dict.{Dict}
use shyam.Base.Sets.{elem, IsDict, put-IsDict, All-entries}
use shyam.Trust.Json.{
  Scalar, null, text, object, Payload, Json, status_text, status_of, relationship_text,
  relationship_of, or_null, optional_text, meaning, metadata_of, model_dump, model_validate,
  dump_all, validate_all, written, parsed, reopened, ◌>>=◌,
}
use shyam.Trust.Models.{
  TrustStatus, unknown, trusted, revoked, RelationshipType, personal, peer, infrastructure,
  no_relationship, TrustRecord, new_record, given,
}
use shyam.Trust.Persistence.{IsPersisted, AllWritten, run-IsPersisted}
use shyam.Trust.Service.{
  TrustState, Reply, ok, raised, Call, grant, revoke, step, run, fresh, get_record, grant_trust,
  revoke_trust,
}
use shyam.Trust.Store.{holds, load}
use shyam.Values.{Value}

-- A value as it is read again: objects as `reread` says.
abbrev pub restored_scalar : (Dict Value → Dict Value) → Scalar → Scalar
restored_scalar reread null = null
restored_scalar reread (text t) = text t
restored_scalar reread (object m) = object (reread m)

-- The object of a record as it is read again has the same fields.
abbrev pub Matches :
    (Dict Value → Dict Value) → Option (Dict Scalar) → Option (Dict Scalar) → Type 0
Matches reread none none = Unit
Matches reread (some a) (some b) =
    (field : String) → Dict.get field a ≡ Option.map (restored_scalar reread) (Dict.get field b)
Matches reread _ _ = ⊥

-- What the code relies on: a dict that is written is read again with the same keys, the same texts
-- and nulls, and its metadata as `reread` says, which leaves empty metadata empty; and the text of a
-- time is read as that time.
pub record IsJson {Text : Type 0} (json : Json Text) : Type 0 where
  pub reread : Dict Value → Dict Value
  pub reads :
      (p : Payload)
      → IsDict p
      → (q : Payload) × (json.loads (json.dumps p) ≡ some q)
        × IsDict q
        × ((k : String) → Matches reread (Dict.get k q) (Dict.get k p))
  pub times : (t : ℕ) → json.fromisoformat (json.isoformat t) ≡ some t
  pub empty : reread (json.jsonable []) ≡ []

status_of-text : (s : TrustStatus) → status_of (status_text s) ≡ some s
unfolding status_of status_text str_discrete
status_of-text unknown = refl
status_of-text trusted = refl
status_of-text revoked = refl

relationship_of-text : (s : RelationshipType) → relationship_of (relationship_text s) ≡ some s
unfolding relationship_of relationship_text str_discrete
relationship_of-text personal = refl
relationship_of-text peer = refl
relationship_of-text infrastructure = refl
relationship_of-text no_relationship = refl

abbrev pub map_reply : (TrustRecord → TrustRecord) → Reply TrustRecord → Reply TrustRecord
map_reply f (ok r events) = ok (f r) events
map_reply f (raised e) = raised e

optional-null :
    (reread : Dict Value → Dict Value) (o : Option String)
    → optional_text (some (restored_scalar reread (or_null o))) ≡ some o
unfolding optional_text
optional-null reread none = refl
optional-null reread (some t) = refl

step-IsDict : (s : TrustState) (c : Call) → IsDict s.records → IsDict (step s c).records
unfolding step grant_trust revoke_trust
step-IsDict s (grant w id key r alias metadata now) i = put-IsDict id _ s.records i
step-IsDict s (revoke w id reason now) i = put-IsDict id _ s.records i

run-IsDict : (s : TrustState) (cs : List Call) → IsDict s.records → IsDict (run s cs).records
unfolding run
run-IsDict s [] i = i
run-IsDict s (c ∷ cs) i = run-IsDict (step s c) cs (step-IsDict s c i)

module _ {Text : Type 0} (json : Json Text) (law : IsJson json) where
  -- A record as it is read again: its metadata as JSON gives it back, the rest as it was.
  abbrev pub restored : TrustRecord → TrustRecord
  restored r = record r { metadata = law.reread (json.jsonable r.metadata) }

  validate-dump :
      (now : ℕ) (r : TrustRecord) (a : Dict Scalar)
      → Matches law.reread (some a) (some (model_dump json r))
      → model_validate json now a ≡ some (restored r)
  unfolding model_validate model_dump Dict.get str_discrete meaning metadata_of
  validate-dump now r a h =
      rw
        (
          h "node_id",
          h "public_key",
          h "status",
          h "relationship",
          h "alias",
          h "created_at",
          h "updated_at",
          h "metadata",
          optional-null law.reread r.public_key,
          status_of-text r.status,
          relationship_of-text r.relationship,
          law.times r.created_at,
          law.times r.updated_at,
        )
        refl

  get-dump_all :
      (k : String) (d : Dict TrustRecord)
      → Dict.get k (dump_all json d) ≡ Option.map (model_dump json) (Dict.get k d)
  unfolding dump_all Dict.get
  get-dump_all k [] = refl
  get-dump_all k ((j, r) ∷ d) = ground (arith, get-dump_all k d)

  elem-dump_all :
      (k : String) (d : Dict TrustRecord)
      → elem k (Dict.keys (dump_all json d)) ≡ elem k (Dict.keys d)
  unfolding dump_all elem
  elem-dump_all k [] = refl
  elem-dump_all k ((j, r) ∷ d) = ground (arith, elem-dump_all k d)

  dump_all-IsDict : (d : Dict TrustRecord) → IsDict d → IsDict (dump_all json d)
  unfolding dump_all
  dump_all-IsDict [] i = tt
  dump_all-IsDict ((j, r) ∷ d) i = (elem-dump_all j d ∙ i.0, dump_all-IsDict d i.1)

  -- If every object is a record, so is the whole, lookup by lookup.
  validated :
      (now : ℕ) (q : Payload)
      → All (λ e. (r : TrustRecord) × (model_validate json now e.1 ≡ some r)) q
      → (d : Dict TrustRecord) × (validate_all json now q ≡ some d)
        × ((k : String) → Dict.get k d ≡ (Dict.get k q >>= model_validate json now))
  unfolding validate_all Dict.get
  validated now [] a = ([], refl, λ k. refl)
  validated now ((j, fields) ∷ q) ((r, e), a) =
      let (d, v, lookups) = validated now q a in
      ((j, r) ∷ d, rw (e, v) refl, λ k. ground (arith, lookups k, e))

  entry_valid :
      (now : ℕ) (fields : Dict Scalar) (o : Option TrustRecord)
      → Matches law.reread (some fields) (Option.map (model_dump json) o)
      → (r : TrustRecord) × (model_validate json now fields ≡ some r)
  entry_valid now fields none h = absurd h
  entry_valid now fields (some r) h = (restored r, validate-dump now r fields h)

  lookup_restored :
      (now : ℕ) (read : Option (Dict Scalar)) (o : Option TrustRecord)
      → Matches law.reread read (Option.map (model_dump json) o)
      → (read >>= model_validate json now) ≡ Option.map restored o
  lookup_restored now none none h = refl
  lookup_restored now none (some r) h = absurd h
  lookup_restored now (some fields) none h = absurd h
  lookup_restored now (some fields) (some r) h = validate-dump now r fields h

  parsed-holds :
      (now : ℕ) (t : Text) (q : Payload) (d : Dict TrustRecord)
      → json.loads t ≡ some q
      → validate_all json now q ≡ some d
      → parsed json now t ≡ holds d
  unfolding parsed
  parsed-holds now t q d read v = ground (arith, read, v)

  -- The file that is saved is read as the same records.
  reopened-holds :
      (now : ℕ) (d : Dict TrustRecord)
      → IsDict d
      → (d' : Dict TrustRecord) × (reopened json now (holds d) ≡ holds d')
        × ((k : String) → Dict.get k d' ≡ Option.map restored (Dict.get k d))
  unfolding reopened written parsed
  reopened-holds now d i =
      let (q, read, dict, same) = law.reads (dump_all json d) (dump_all-IsDict d i) in
      let matches : (k : String)
          → Matches law.reread (Dict.get k q) (Option.map (model_dump json) (Dict.get k d)) =
        λ k. subst (Matches law.reread (Dict.get k q)) (get-dump_all k d) (same k) in
      let (d', v, lookups) = validated now q (
        All-entries q dict (λ k fields e. entry_valid now fields (Dict.get k d) (
          subst (λ o. Matches law.reread o (Option.map (model_dump json) (Dict.get k d))) e
            (matches k)))) in
      (
        d',
        parsed-holds now (written json d) q d' read v,
        λ k. lookups k ∙ lookup_restored now (Dict.get k q) (Dict.get k d) (matches k),
      )

  looked_up :
      (j : String) (now : ℕ) (o o' : Option TrustRecord)
      → o' ≡ Option.map restored o
      → given o' (new_record j TrustStatus.unknown now)
        ≡ restored (given o (new_record j TrustStatus.unknown now))
  unfolding new_record
  looked_up j now none o' e =
      ap (λ o. given o (new_record j TrustStatus.unknown now)) e
      ∙ ap (λ m. record (new_record j TrustStatus.unknown now) { metadata = m }) (sym law.empty)
  looked_up j now (some r) o' e = ap (λ o. given o (new_record j TrustStatus.unknown now)) e

  loaded_reply :
      (j : String) (now : ℕ) (d : Dict TrustRecord)
      → (get_record j now (fresh (holds d))).1
        ≡ ok (given (Dict.get j d) (new_record j TrustStatus.unknown now)) []
  unfolding get_record load
  loaded_reply j now d = refl

  running_reply :
      (j : String) (now : ℕ) (s : TrustState)
      → s.initialized ≡ true
      → (get_record j now s).1
        ≡ ok (given (Dict.get j s.records) (new_record j TrustStatus.unknown now)) []
  unfolding get_record
  running_reply j now s h = rw h refl

  -- From a service whose records have each key once and whose file holds them, after any grants and
  -- revocations whose writes succeed, a service started afresh on the text that was written gives the
  -- same record for every node as the running one, but for the metadata, which is what the JSON
  -- library gives back of it; the library is taken to satisfy IsJson.
  pub restart-agrees :
      (s : TrustState) (cs : List Call) (j : String) (clock now : ℕ)
      → AllWritten cs
      → IsPersisted s
      → IsDict s.records
      → (get_record j now (fresh (reopened json clock (run s cs).disk))).1
        ≡ map_reply restored (get_record j now (run s cs)).1
  restart-agrees s cs j clock now w h i =
      let p = run-IsPersisted s cs w h in
      let (d, reopens, lookups) = reopened-holds clock (run s cs).records (run-IsDict s cs i) in
      ap (λ disk. (get_record j now (fresh disk)).1) (ap (reopened json clock) p.on_disk ∙ reopens)
      ∙ loaded_reply j now d
      ∙ ap (λ r. ok r [])
          (looked_up j now (Dict.get j (run s cs).records) (Dict.get j d) (lookups j))
      ∙ ap (map_reply restored) (sym (running_reply j now (run s cs) p.loaded))
