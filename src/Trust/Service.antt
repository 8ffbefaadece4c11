-- ===== src/Trust/Service.antt =====
-- src/shyam/trust/service.py. A method takes the state and returns the new one with its result; the
-- lock makes each method one step. `write` says whether the file can be written during the call.
use shyam.Base.{
  ℕ, String, Bool, true, false, Option, none, some, List, [], ◌∷◌, ite, if◌then◌else◌, str_discrete,
  keep,
}
use shyam.Base.Dict
use shyam.Base.Dict.{Dict}
use shyam.Trust.Models.{
  TrustStatus, trust_status_discrete, RelationshipType, TrustRecord, is_trusted, with_status,
  new_record, given, TrustEvent, granted, revoked_event,
}
use shyam.Trust.Store.{TrustError, Disk, Loaded, load, Write, save}
use shyam.Values.{Value, other}

pub record TrustState : Type 0 where
  pub records : Dict TrustRecord
  pub initialized : Bool
  pub disk : Disk

-- A result or an exception, with what was published.
pub data Reply {ℓ} (A : Type ℓ) : Type ℓ where
  ok : A → List TrustEvent → Reply A
  raised : TrustError → Reply A

-- A service over a data directory, before its first load.
abbrev pub fresh : Disk → TrustState
fresh disk = record { records = []; initialized = false; disk = disk }

-- `self._records = self._store.load(); self._initialized = True`
unfoldable pub load_into : TrustState → Loaded → TrustState × Option TrustError
load_into s (Loaded.ok records) = (record s { records = records; initialized = true }, none)
load_into s (Loaded.failed e) = (s, some e)

-- `if not self._initialized: …`
unfoldable pub initialize : TrustState → TrustState × Option TrustError
unfolding load_into load
initialize s = if s.initialized then (s, none) else load_into s (load s.disk)

-- The records once they are loaded.
unfoldable pub with_records {ℓ} :
    {A : Type ℓ} → (Dict TrustRecord → A) → TrustState × Option TrustError → TrustState × Reply A
with_records f (s, none) = (s, ok (f s.records) [])
with_records f (s, some e) = (s, raised e)

unfoldable pub record_of : String → ℕ → Dict TrustRecord → TrustRecord
unfolding new_record
record_of node_id now records =
    given (Dict.get node_id records) (new_record node_id TrustStatus.unknown now)

unfoldable pub get_record : String → ℕ → TrustState → TrustState × Reply TrustRecord
unfolding initialize with_records record_of
get_record node_id now s = with_records (record_of node_id now) (initialize s)

-- `value or old` on texts that may be absent
unfoldable pub or_old : Option String → Option String → Option String
or_old none old = old
or_old (some v) old = ite (str_discrete v "") old (some v)

unfoldable pub or_text : String → String → String
or_text v old = ite (str_discrete v "") old v

-- The record that `grant_trust` writes.
unfoldable pub granted_record :
    String
    → Option String
    → RelationshipType
    → String
    → Option (Dict Value)
    → ℕ
    → Option TrustRecord
    → TrustRecord
unfolding with_status new_record or_old or_text
granted_record node_id public_key relationship alias metadata now none =
    record (new_record node_id TrustStatus.trusted now) {
      public_key = public_key;
      relationship = relationship;
      alias = alias;
      metadata = given metadata [];
    }
granted_record node_id public_key relationship alias metadata now (some old) =
    with_status old TrustStatus.trusted (some relationship) (some (or_text alias old.alias))
      (or_old public_key old.public_key) (some (given metadata old.metadata)) now

-- `self._records[node_id] = record; self._store.save(self._records)`, then the event. A failed write
-- leaves the record in memory, and raises before anything is published.
unfoldable pub store :
    Write → String → TrustRecord → TrustEvent → TrustState → TrustState × Reply TrustRecord
unfolding save
store write node_id r event s =
    let records = Dict.put node_id r s.records in
    let (disk, failure) = save write records s.disk in
    (
      record s { records = records; disk = disk },
      elim failure [ none ↦ ok r (event ∷ []) | some e ↦ raised e ],
    )

unfoldable pub grant_trust :
    Write
    → String
    → Option String
    → RelationshipType
    → String
    → Option (Dict Value)
    → ℕ
    → TrustState
    → TrustState × Reply TrustRecord
unfolding granted_record store
grant_trust write node_id public_key relationship alias metadata now s =
    let r =
      granted_record node_id public_key relationship alias metadata now
        (Dict.get node_id s.records) in
    store write node_id r (granted node_id r.public_key r.relationship r.alias) s

-- `if reason: meta["revoke_reason"] = reason`
unfoldable pub with_reason : Option String → Dict Value → Dict Value
with_reason none meta = meta
with_reason (some reason) meta =
    ite (str_discrete reason "") meta (Dict.put "revoke_reason" (other reason) meta)

unfoldable pub revoked_record : String → Option String → ℕ → Option TrustRecord → TrustRecord
unfolding with_status new_record with_reason
revoked_record node_id reason now none = record (new_record node_id TrustStatus.revoked now) {
  metadata = with_reason reason [];
}
revoked_record node_id reason now (some old) =
    with_status old TrustStatus.revoked none none none (some (with_reason reason old.metadata)) now

unfoldable pub revoke_trust :
    Write → String → Option String → ℕ → TrustState → TrustState × Reply TrustRecord
unfolding revoked_record store
revoke_trust write node_id reason now s =
    store write node_id (revoked_record node_id reason now (Dict.get node_id s.records))
      (revoked_event node_id reason) s

-- The records of a status, or all of them.
unfoldable pub filtered : Option TrustStatus → Dict TrustRecord → List TrustRecord
filtered none records = Dict.values records
filtered (some status) records =
    keep (λ r. ite (trust_status_discrete r.status status) true false) (Dict.values records)

unfoldable pub list_records :
    Option TrustStatus → TrustState → TrustState × Reply (List TrustRecord)
unfolding initialize with_records filtered
list_records filter s = with_records (filtered filter) (initialize s)

-- `is_trusted(node_id)`
unfoldable pub node_is_trusted : String → ℕ → TrustState → TrustState × Reply Bool
unfolding initialize with_records record_of is_trusted
node_is_trusted node_id now s =
    with_records (λ records. is_trusted (record_of node_id now records)) (initialize s)

-- The calls that change the records, each with the outcome of its write and its clock reading.
pub data Call : Type 0 where
  grant :
      Write → String → Option String → RelationshipType → String → Option (Dict Value) → ℕ → Call
  revoke : Write → String → Option String → ℕ → Call

unfoldable pub step : TrustState → Call → TrustState
unfolding grant_trust revoke_trust
step s (grant w id key relationship alias metadata now) =
    (grant_trust w id key relationship alias metadata now s).0
step s (revoke w id reason now) = (revoke_trust w id reason now s).0

unfoldable pub run : TrustState → List Call → TrustState
run s [] = s
run s (c ∷ cs) = run (step s c) cs
