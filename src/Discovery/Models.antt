-- ===== src/Discovery/Models.antt =====
-- src/shyam/discovery/ecosystem_models.py: nodes, providers and capabilities as discovery sees them.
-- A timestamp is the number of seconds since some origin.
use shyam.Base.{ℕ, ◌+◌, String, Bool, true, false, List, [], ◌∷◌, map, ite, length, keep}
use shyam.Base.Dict
use shyam.Base.Dict.{Dict}
use shyam.Base.Sets.{union}
use shyam.Capabilities.{AvailabilityStatus}
use shyam.Values.{Value}

pub data EcosystemNodeState : Type 0 where
  known available unavailable stale : EcosystemNodeState

-- The `StrEnum` value, which formatting prints.
unfoldable pub state_value : EcosystemNodeState → String
state_value known = "known"
state_value available = "available"
state_value unavailable = "unavailable"
state_value stale = "stale"

unfoldable pub state_discrete : Discrete EcosystemNodeState
state_discrete = hlevel

pub record DiscoveredCapability : Type 0 where
  pub capability_id : String
  pub name : String
  pub version : String
  pub description : String
  pub availability : AvailabilityStatus

pub record DiscoveredProvider : Type 0 where
  pub provider_id : String
  pub name : String
  pub version : String
  pub description : String
  pub capabilities : List DiscoveredCapability
  pub status : AvailabilityStatus
  pub metadata : Dict Value
  pub last_seen : ℕ

pub record DiscoveredNode : Type 0 where
  pub node_id : String
  pub node_name : String
  pub state : EcosystemNodeState
  pub is_local : Bool
  pub protocol_version : String
  pub providers : Dict DiscoveredProvider
  pub metadata : Dict Value
  pub first_seen : ℕ
  pub last_seen : ℕ

-- `seen_at or now`: the caller's clock reading stands for a missing argument.
unfoldable pub with_touch : DiscoveredNode → ℕ → DiscoveredNode
with_touch n seen_at = record n { last_seen = seen_at }

unfoldable pub with_state : DiscoveredNode → EcosystemNodeState → DiscoveredNode
with_state n s = record n { state = s }

unfoldable pub with_provider : DiscoveredNode → DiscoveredProvider → DiscoveredNode
with_provider n p = record n { providers = Dict.put p.provider_id p n.providers }

unfoldable pub without_provider : DiscoveredNode → String → DiscoveredNode
without_provider n provider_id = record n { providers = Dict.pop provider_id n.providers }

unfoldable pub provider_capability_ids : DiscoveredProvider → List String
provider_capability_ids p = map (λ c. c.capability_id) p.capabilities

unfoldable pub ids_of_providers : List DiscoveredProvider → List String
unfolding union provider_capability_ids
ids_of_providers [] = []
ids_of_providers (p ∷ ps) = union (provider_capability_ids p) (ids_of_providers ps)

-- The union over the providers, which the code builds up in a set.
unfoldable pub capability_ids : DiscoveredNode → List String
unfolding ids_of_providers
capability_ids n = ids_of_providers (Dict.values n.providers)

pub record EcosystemSnapshot : Type 0 where
  pub local_node_id : String
  pub nodes : Dict DiscoveredNode

unfoldable pub total_nodes : EcosystemSnapshot → ℕ
total_nodes s = length s.nodes

is_available : DiscoveredNode → Bool
is_available n = ite (state_discrete n.state available) true false

unfoldable pub active_nodes : EcosystemSnapshot → List DiscoveredNode
unfolding is_available
active_nodes s = keep is_available (Dict.values s.nodes)

sum_providers : List DiscoveredNode → ℕ
sum_providers [] = 0
sum_providers (n ∷ ns) = length n.providers + sum_providers ns

unfoldable pub total_providers : EcosystemSnapshot → ℕ
unfolding sum_providers
total_providers s = sum_providers (Dict.values s.nodes)

unfoldable pub ids_of_nodes : List DiscoveredNode → List String
unfolding union capability_ids
ids_of_nodes [] = []
ids_of_nodes (n ∷ ns) = union (capability_ids n) (ids_of_nodes ns)

unfoldable pub all_capabilities : EcosystemSnapshot → List String
unfolding ids_of_nodes
all_capabilities s = ids_of_nodes (Dict.values s.nodes)
