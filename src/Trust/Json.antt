-- ===== src/Trust/Json.antt =====
-- src/shyam/trust/store.py and models.py: how the records become the text of the file and are read from
-- it. The library that writes and reads JSON, the texts of times and the conversion of metadata are the
-- parameter `Json`. A scalar that is no text, no null and no object, which no dump has, is left out.
use shyam.Base.{ℕ, String, Option, none, some, [], ◌∷◌, ite, str_discrete}
use shyam.Base.Dict
use shyam.Base.Dict.{Dict}
use shyam.Trust.Models.{
  TrustStatus, unknown, trusted, revoked, RelationshipType, personal, peer, infrastructure,
  no_relationship, TrustRecord,
}
use shyam.Trust.Store.{Disk, absent, unreadable, corrupt, holds}
use shyam.Values.{Value}

infixl 1 ◌>>=◌
abbrev pub ◌>>=◌ : {A B : Type 0} → Option A → (A → Option B) → Option B
none >>= f = none
some a >>= f = f a

-- A value in the object of a record.
pub data Scalar : Type 0 where
  null : Scalar
  text : String → Scalar
  object : Dict Value → Scalar

-- The JSON object of the file.
abbrev pub Payload : Type 0
Payload = Dict (Dict Scalar)

-- `json.dumps(…, sort_keys=True)`; `json.loads`, where `none` is a text that is not an object of objects;
-- a time as pydantic writes and reads it; and what `model_dump(mode="json")` makes of metadata.
pub record Json (Text : Type 0) : Type 0 where
  pub dumps : Payload → Text
  pub loads : Text → Option Payload
  pub isoformat : ℕ → String
  pub fromisoformat : String → Option ℕ
  pub jsonable : Dict Value → Dict Value

-- `TrustStatus.value`
unfoldable pub status_text : TrustStatus → String
status_text unknown = "unknown"
status_text trusted = "trusted"
status_text revoked = "revoked"

unfoldable pub status_of : String → Option TrustStatus
status_of t = ite (str_discrete t "unknown") (some unknown) (
    ite (str_discrete t "trusted") (some trusted)
      (ite (str_discrete t "revoked") (some revoked) none))

-- `RelationshipType.value`
unfoldable pub relationship_text : RelationshipType → String
relationship_text no_relationship = "none"
relationship_text personal = "personal"
relationship_text peer = "peer"
relationship_text infrastructure = "infrastructure"

unfoldable pub relationship_of : String → Option RelationshipType
relationship_of t = ite (str_discrete t "none") (some no_relationship) (
    ite (str_discrete t "personal") (some personal) (
      ite (str_discrete t "peer") (some peer)
        (ite (str_discrete t "infrastructure") (some infrastructure) none)))

abbrev pub or_null : Option String → Scalar
or_null none = null
or_null (some t) = text t

-- A field of a record: a text that may be null, a text with a meaning, an object. A missing field has
-- its default, and `none` is `ValidationError`.
unfoldable pub optional_text : Option Scalar → Option (Option String)
optional_text none = some none
optional_text (some null) = some none
optional_text (some (text t)) = some (some t)
optional_text (some (object m)) = none

unfoldable pub meaning {ℓ} :
    {A : Type ℓ} → (String → Option A) → Option A → Option Scalar → Option A
meaning read default none = default
meaning read default (some null) = none
meaning read default (some (text t)) = read t
meaning read default (some (object m)) = none

unfoldable pub metadata_of : Option Scalar → Option (Dict Value)
metadata_of none = some []
metadata_of (some null) = none
metadata_of (some (text t)) = none
metadata_of (some (object m)) = some m

module _ {Text : Type 0} (json : Json Text) where
  -- `record.model_dump(mode="json")`
  unfoldable pub model_dump : TrustRecord → Dict Scalar
  unfolding status_text relationship_text
  model_dump r =
      ("node_id", text r.node_id)
      ∷ ("public_key", or_null r.public_key)
      ∷ ("status", text (status_text r.status))
      ∷ ("relationship", text (relationship_text r.relationship))
      ∷ ("alias", text r.alias)
      ∷ ("created_at", text (json.isoformat r.created_at))
      ∷ ("updated_at", text (json.isoformat r.updated_at))
      ∷ ("metadata", object (json.jsonable r.metadata))
      ∷ []

  -- `TrustRecord.model_validate(rec)` at a clock reading
  unfoldable pub model_validate : ℕ → Dict Scalar → Option TrustRecord
  unfolding Dict.get optional_text meaning status_of relationship_of metadata_of
  model_validate now fields = do
    node_id ← meaning some none (Dict.get "node_id" fields)
    public_key ← optional_text (Dict.get "public_key" fields)
    status ← meaning status_of (some unknown) (Dict.get "status" fields)
    relationship ← meaning relationship_of (some no_relationship) (Dict.get "relationship" fields)
    alias ← meaning some (some "") (Dict.get "alias" fields)
    created_at ← meaning json.fromisoformat (some now) (Dict.get "created_at" fields)
    updated_at ← meaning json.fromisoformat (some now) (Dict.get "updated_at" fields)
    metadata ← metadata_of (Dict.get "metadata" fields)
    some (record {
      node_id = node_id;
      public_key = public_key;
      status = status;
      relationship = relationship;
      alias = alias;
      created_at = created_at;
      updated_at = updated_at;
      metadata = metadata;
    })

  -- `{node_id: record.model_dump(mode="json") for …}`
  unfoldable pub dump_all : Dict TrustRecord → Payload
  unfolding model_dump
  dump_all [] = []
  dump_all ((node_id, r) ∷ records) = (node_id, model_dump r) ∷ dump_all records

  -- `{node_id: TrustRecord.model_validate(rec) for …}`
  unfoldable pub validate_all : ℕ → Payload → Option (Dict TrustRecord)
  unfolding model_validate
  validate_all now [] = some []
  validate_all now ((node_id, fields) ∷ payload) = do
    r ← model_validate now fields
    records ← validate_all now payload
    some ((node_id, r) ∷ records)

  -- The text that `save` writes.
  unfoldable pub written : Dict TrustRecord → Text
  unfolding dump_all
  written records = json.dumps (dump_all records)

  -- What `load` finds in a text that is not blank.
  unfoldable pub parsed : ℕ → Text → Disk
  unfolding validate_all
  parsed now t = elim (json.loads t) [
    | none ↦ corrupt
    | some payload ↦ elim (validate_all now payload) [
      | none ↦ corrupt
      | some records ↦ holds records
    ]
  ]

  -- The file as a process finds it that is started after the one that saved it.
  unfoldable pub reopened : ℕ → Disk → Disk
  unfolding written parsed
  reopened now absent = absent
  reopened now unreadable = unreadable
  reopened now corrupt = corrupt
  reopened now (holds records) = parsed now (written records)
