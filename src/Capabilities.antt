-- ===== src/Capabilities.antt =====
-- src/shyam/capabilities/model.py. The validators of ids and versions are left out: capabilities are
-- taken as built.
pub mod Registry
use shyam.Base.{String}
use shyam.Base.Dict.{Dict}
use shyam.Values.{Value}

pub data AvailabilityStatus : Type 0 where
  registered available unavailable : AvailabilityStatus

-- The `StrEnum` value, which formatting prints.
unfoldable pub status_value : AvailabilityStatus → String
status_value registered = "registered"
status_value available = "available"
status_value unavailable = "unavailable"

unfoldable pub status_discrete : Discrete AvailabilityStatus
status_discrete = hlevel

pub record Capability : Type 0 where
  pub capability_id : String
  pub name : String
  pub version : String
  pub description : String
  pub metadata : Dict Value
  pub availability : AvailabilityStatus
