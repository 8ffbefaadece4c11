-- ===== src/Providers.antt =====
-- src/shyam/providers: providers, their registry and the fabric that starts the local ones. The
-- validators of ids and versions are left out: providers are taken as built.
pub mod Registry
pub mod Fabric
pub mod Startup
mod Tests
use shyam.Base.{String, List}
use shyam.Base.Dict.{Dict}
use shyam.Capabilities.{AvailabilityStatus}
use shyam.Values.{Value}

pub record Provider : Type 0 where
  pub provider_id : String
  pub name : String
  pub version : String
  pub description : String
  pub capabilities : List String
  pub metadata : Dict Value
  pub availability : AvailabilityStatus
