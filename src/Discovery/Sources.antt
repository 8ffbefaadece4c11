-- ===== src/Discovery/Sources.antt =====
-- What src/shyam/discovery/ecosystem_service.py reads: peers of src/shyam/discovery/model.py and of
-- src/shyam/providers/flux/models.py, the state of the Zarya and Flux providers, and the conversions
-- from the models of this node in src/shyam/discovery/ecosystem_models.py. A port or a count of paths
-- is the text that stands for it in metadata.
use shyam.Base.{ℕ, String, Bool, Option, List, [], ◌∷◌, map}
use shyam.Base.Dict.{Dict}
use shyam.Capabilities.{AvailabilityStatus, Capability}
use shyam.Discovery.Models.{DiscoveredCapability, DiscoveredProvider}
use shyam.Providers.{Provider}
use shyam.Values.{Value}

pub record Peer : Type 0 where
  pub node_id : String
  pub node_name : String
  pub address : String
  pub port : String
  pub protocol_version : String
  pub discovered_at : ℕ
  pub last_seen : ℕ
  pub metadata : Dict Value

unfoldable pub touch : Peer → ℕ → Peer
touch p seen_at = record p { last_seen = seen_at }

pub record FluxPeerInfo : Type 0 where
  pub peer_id : String
  pub address : Option String
  pub paths_count : String
  pub connectivity : String

-- What the service asks of a Zarya or Flux provider.
pub record Link : Type 0 where
  pub is_connected : Bool
  pub descriptor : Option Provider
  pub capability_definitions : List Capability

unfoldable pub from_capability : Capability → DiscoveredCapability
from_capability c = record {
  capability_id = c.capability_id;
  name = c.name;
  version = c.version;
  description = c.description;
  availability = c.availability;
}

-- `DiscoveredCapability(capability_id=id, name=name, availability=availability)`
unfoldable pub bare_capability : String → String → AvailabilityStatus → DiscoveredCapability
bare_capability id name availability = record {
  capability_id = id;
  name = name;
  version = "1.0.0";
  description = "";
  availability = availability;
}

-- The models, or else the ids that the provider lists.
unfoldable pub discovered_capabilities : List String → List Capability → List DiscoveredCapability
unfolding from_capability bare_capability
discovered_capabilities ids [] = map (λ id. bare_capability id id AvailabilityStatus.available) ids
discovered_capabilities ids (c ∷ cs) = map from_capability (c ∷ cs)

unfoldable pub from_provider : Provider → List Capability → ℕ → DiscoveredProvider
unfolding discovered_capabilities
from_provider p models last_seen = record {
  provider_id = p.provider_id;
  name = p.name;
  version = p.version;
  description = p.description;
  capabilities = discovered_capabilities p.capabilities models;
  status = p.availability;
  metadata = p.metadata;
  last_seen = last_seen;
}
