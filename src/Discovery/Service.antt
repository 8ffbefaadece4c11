-- ===== src/Discovery/Service.antt =====
-- src/shyam/discovery/ecosystem_service.py. The events that the registry publishes are left to its own
-- model; a clock reading is an argument. A metadata value that counts as false is the empty text.
use shyam.Base.{
  ℕ, String, ◌<>◌, Bool, true, false, Option, none, some, List, [], ◌∷◌, map, ite, if◌then◌else◌,
  str_discrete,
}
use shyam.Base.Dict
use shyam.Base.Dict.{Dict}
use shyam.Base.Sets.{elem}
use shyam.Base.Text.{first_chars}
use shyam.Capabilities.{AvailabilityStatus, Capability}
use shyam.Capabilities.Registry
use shyam.Capabilities.Registry.{CapabilityRegistry, list_all}
use shyam.Discovery.Models.{
  EcosystemNodeState, known, available, unavailable, state_discrete, DiscoveredProvider,
  DiscoveredNode,
}
use shyam.Discovery.Registry.{EcosystemRegistry, get_node, register_node}
use shyam.Discovery.Sources.{FluxPeerInfo, Link, bare_capability, from_provider}
use shyam.Identity.{NodeIdentity}
use shyam.Providers.{Provider}
use shyam.Providers.Registry.{ProviderRegistry}
use shyam.Values.{other}

-- What the service was built with, besides its registry. `peers` is what `discover_peers` returns, and
-- `none` where it raises.
pub record Surroundings : Type 0 where
  pub identity : NodeIdentity
  pub providers : ProviderRegistry
  pub capabilities : CapabilityRegistry
  pub zarya : Option Link
  pub flux : Option Link
  pub peers : Option (List FluxPeerInfo)

-- `Capability(capability_id=cid, name=cid, availability=prov.availability)`
unfoldable pub undeclared : String → AvailabilityStatus → Capability
undeclared cid availability = record {
  capability_id = cid;
  name = cid;
  version = "1.0.0";
  description = "";
  metadata = [];
  availability = availability;
}

-- The models of a provider's capabilities.
unfoldable pub models_of : CapabilityRegistry → Provider → List Capability
unfolding Registry.get undeclared
models_of registry p =
    map
      (λ cid. elim (Registry.get cid registry) [
        | some c ↦ c
        | none ↦ undeclared cid p.availability
      ])
      p.capabilities

unfoldable pub local_providers :
    CapabilityRegistry → ℕ → List Provider → Dict DiscoveredProvider → Dict DiscoveredProvider
unfolding models_of from_provider
local_providers registry now [] found = found
local_providers registry now (p ∷ ps) found =
    local_providers registry now ps
      (Dict.put p.provider_id (from_provider p (models_of registry p) now) found)

-- A provider that is connected and not among those found.
unfoldable pub add_described :
    List Capability → ℕ → Option Provider → Dict DiscoveredProvider → Dict DiscoveredProvider
unfolding elem from_provider
add_described caps now none found = found
add_described caps now (some p) found =
    if elem p.provider_id (Dict.keys found)
    then found
    else Dict.put p.provider_id (from_provider p caps now) found

unfoldable pub add_link : ℕ → Option Link → Dict DiscoveredProvider → Dict DiscoveredProvider
unfolding add_described
add_link now none found = found
add_link now (some l) found =
    if l.is_connected then add_described l.capability_definitions now l.descriptor found else found

-- `existing.first_seen if existing else default`
abbrev pub seen_first : Option DiscoveredNode → ℕ → ℕ
seen_first none default = default
seen_first (some n) default = n.first_seen

unfoldable pub local_node : Surroundings → ℕ → EcosystemRegistry → DiscoveredNode
unfolding local_providers add_link get_node list_all
local_node w now r = record {
  node_id = w.identity.node_id;
  node_name = w.identity.node_name;
  state = available;
  is_local = true;
  protocol_version = w.identity.protocol_version;
  providers =
      add_link now w.flux
        (add_link now w.zarya (local_providers w.capabilities now (list_all w.providers) []));
  metadata = ("environment", other "local") ∷ [];
  first_seen = seen_first (get_node w.identity.node_id r) now;
  last_seen = now;
}

unfoldable pub discover_local_node : Surroundings → ℕ → EcosystemRegistry → EcosystemRegistry
unfolding local_node register_node
discover_local_node w now r = (register_node (local_node w now r) true r).0

unfoldable pub connectivity_state : String → EcosystemNodeState
connectivity_state c =
    ite (str_discrete c "reachable") available
      (ite (str_discrete c "unreachable") unavailable known)

unfoldable pub transfer_status : EcosystemNodeState → AvailabilityStatus
unfolding state_discrete
transfer_status s =
    ite (state_discrete s available) AvailabilityStatus.available AvailabilityStatus.unavailable

abbrev pub or_none : Option String → String
or_none none = ""
or_none (some t) = t

unfoldable pub flux_provider : FluxPeerInfo → EcosystemNodeState → ℕ → DiscoveredProvider
unfolding bare_capability transfer_status
flux_provider p state now = record {
  provider_id = "flux.peer";
  name = "Flux Peer Connectivity";
  version = "1.0.0";
  description = "";
  capabilities = bare_capability "flux.transfer" "Flux Data Transfer" (transfer_status state) ∷ [];
  status = transfer_status state;
  metadata = ("paths_count", other p.paths_count) ∷ ("connectivity", other p.connectivity) ∷ [];
  last_seen = now;
}

unfoldable pub flux_node : ℕ → FluxPeerInfo → EcosystemRegistry → DiscoveredNode
unfolding connectivity_state flux_provider get_node first_chars
flux_node now p r =
    let node_id = "flux:" <> p.peer_id in
    let state = connectivity_state p.connectivity in
    record {
      node_id = node_id;
      node_name = "flux-peer-" <> first_chars 8 p.peer_id;
      state = state;
      is_local = false;
      protocol_version = "1.0.0";
      providers = ("flux.peer", flux_provider p state now) ∷ [];
      metadata =
          ("origin", other "flux_gateway")
          ∷ ("flux_peer_id", other p.peer_id)
          ∷ ("address", other (or_none p.address))
          ∷ ("connectivity", other p.connectivity)
          ∷ [];
      first_seen = seen_first (get_node node_id r) now;
      last_seen = now;
    }

unfoldable pub ingest_all : ℕ → List FluxPeerInfo → EcosystemRegistry → EcosystemRegistry
unfolding flux_node register_node
ingest_all now [] r = r
ingest_all now (p ∷ ps) r = ingest_all now ps (register_node (flux_node now p r) true r).0

-- `flux_provider and flux_provider.is_connected`
abbrev pub connected : Option Link → Bool
connected none = false
connected (some l) = l.is_connected

unfoldable pub ingest_flux_peers : Surroundings → ℕ → EcosystemRegistry → EcosystemRegistry
unfolding ingest_all
ingest_flux_peers w now r =
    if connected w.flux then elim w.peers [ none ↦ r | some ps ↦ ingest_all now ps r ] else r
