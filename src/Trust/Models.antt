-- ===== src/Trust/Models.antt =====
-- src/shyam/trust/models.py. A timestamp is a number, and `now` is the clock reading that the code takes.
use shyam.Base.{ℕ, String, Bool, true, false, Option, none, some, [], ite}
use shyam.Base.Dict.{Dict}
use shyam.Values.{Value}

pub data TrustStatus : Type 0 where
  unknown trusted revoked : TrustStatus

unfoldable pub trust_status_discrete : Discrete TrustStatus
trust_status_discrete = hlevel

pub data RelationshipType : Type 0 where
  personal peer infrastructure no_relationship : RelationshipType

pub record TrustRecord : Type 0 where
  pub node_id : String
  pub public_key : Option String
  pub status : TrustStatus
  pub relationship : RelationshipType
  pub alias : String
  pub created_at : ℕ
  pub updated_at : ℕ
  pub metadata : Dict Value

unfoldable pub is_trusted : TrustRecord → Bool
is_trusted r = ite (trust_status_discrete r.status TrustStatus.trusted) true false

unfoldable pub is_revoked : TrustRecord → Bool
is_revoked r = ite (trust_status_discrete r.status TrustStatus.revoked) true false

-- `value if value is not None else old`
abbrev pub given {ℓ} : {A : Type ℓ} → Option A → A → A
given none old = old
given (some v) old = v

abbrev pub given_some {ℓ} : {A : Type ℓ} → Option A → Option A → Option A
given_some none old = old
given_some (some v) old = some v

unfoldable pub with_status :
    TrustRecord
    → TrustStatus
    → Option RelationshipType
    → Option String
    → Option String
    → Option (Dict Value)
    → ℕ
    → TrustRecord
with_status r status relationship alias public_key metadata now = record r {
  status = status;
  relationship = given relationship r.relationship;
  alias = given alias r.alias;
  public_key = given_some public_key r.public_key;
  updated_at = now;
  metadata = given metadata r.metadata;
}

-- `TrustRecord(node_id=…, status=…)` with the other fields at their defaults.
unfoldable pub new_record : String → TrustStatus → ℕ → TrustRecord
new_record node_id status now = record {
  node_id = node_id;
  public_key = none;
  status = status;
  relationship = no_relationship;
  alias = "";
  created_at = now;
  updated_at = now;
  metadata = [];
}

pub data TrustEvent : Type 0 where
  granted : String → Option String → RelationshipType → String → TrustEvent
  revoked_event : String → Option String → TrustEvent
