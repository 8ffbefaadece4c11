-- ===== src/Discovery/Peers.antt =====
-- src/shyam/discovery/ecosystem_service.py: the peers of the network, and `discover`.
use shyam.Base.{
  ℕ, String, Bool, true, false, ◌||◌, Option, none, some, [], ◌∷◌, ite, if◌then◌else◌, str_discrete,
}
use shyam.Base.Dict
use shyam.Base.Dict.{Dict}
use shyam.Capabilities.{AvailabilityStatus}
use shyam.Discovery.Models.{
  available, unavailable, DiscoveredProvider, DiscoveredNode, with_state, EcosystemSnapshot,
}
use shyam.Discovery.Registry.{EcosystemRegistry, get_node, register_node, create_snapshot}
use shyam.Discovery.Service.{
  Surroundings, seen_first, connected, discover_local_node, ingest_flux_peers,
}
use shyam.Discovery.Sources.{Peer, bare_capability}
use shyam.Values.{Value, other, dict, end, field}

-- `bool(metadata.get(key))`
unfoldable pub truthy : Option Value → Bool
truthy none = false
truthy (some (other t)) = ite (str_discrete t "") false true
truthy (some (dict end)) = false
truthy (some (dict (field _ _ _))) = true

-- `metadata.get(key)` as a value
abbrev pub or_nothing : Option Value → Value
or_nothing none = other ""
or_nothing (some v) = v

-- `{…, **extra}`
unfoldable pub put_all : Dict Value → Dict Value → Dict Value
put_all [] d = d
put_all ((k, v) ∷ extra) d = put_all extra (Dict.put k v d)

unfoldable pub zarya_peer : Peer → DiscoveredProvider
unfolding bare_capability
zarya_peer p = record {
  provider_id = "zarya.agent";
  name = "Zarya Agent Provider";
  version = "1.0.0";
  description = "";
  capabilities =
      bare_capability "zarya.work.continue" "Zarya Work Continuation" AvailabilityStatus.available
      ∷ [];
  status = AvailabilityStatus.available;
  metadata = ("zarya_url", or_nothing (Dict.get "zarya_url" p.metadata)) ∷ [];
  last_seen = p.last_seen;
}

unfoldable pub shyam_peer : Peer → DiscoveredProvider
unfolding bare_capability
shyam_peer p = record {
  provider_id = "shyam.peer";
  name = "Remote Shyam Node";
  version = p.protocol_version;
  description = "";
  capabilities =
      bare_capability "shyam.runtime.inspect" "Runtime Introspection" AvailabilityStatus.available
      ∷ [];
  status = AvailabilityStatus.available;
  metadata = ("address", other p.address) ∷ ("port", other p.port) ∷ [];
  last_seen = p.last_seen;
}

unfoldable pub peer_providers : Peer → Dict DiscoveredProvider
unfolding truthy zarya_peer shyam_peer
peer_providers p =
    let own = ("shyam.peer", shyam_peer p) ∷ [] in
    if truthy (Dict.get "zarya_url" p.metadata) || truthy (Dict.get "has_zarya" p.metadata)
    then ("zarya.agent", zarya_peer p) ∷ own
    else own

unfoldable pub peer_node : Peer → EcosystemRegistry → DiscoveredNode
unfolding peer_providers put_all get_node
peer_node p r = record {
  node_id = p.node_id;
  node_name = p.node_name;
  state = available;
  is_local = false;
  protocol_version = p.protocol_version;
  providers = peer_providers p;
  metadata = put_all p.metadata (
      ("origin", other "udp_broadcast")
      ∷ ("address", other p.address)
      ∷ ("port", other p.port)
      ∷ []);
  first_seen = seen_first (get_node p.node_id r) p.discovered_at;
  last_seen = p.last_seen;
}

unfoldable pub ingest_udp_peer : Peer → EcosystemRegistry → EcosystemRegistry
unfolding peer_node register_node
ingest_udp_peer p r = (register_node (peer_node p r) true r).0

unfoldable pub lose : Option DiscoveredNode → EcosystemRegistry → EcosystemRegistry
unfolding with_state register_node
lose none r = r
lose (some n) r = if n.is_local then r else (register_node (with_state n unavailable) true r).0

unfoldable pub handle_udp_peer_lost : String → EcosystemRegistry → EcosystemRegistry
unfolding lose get_node
handle_udp_peer_lost node_id r = lose (get_node node_id r) r

-- The registry after `discover`, and the snapshot.
unfoldable pub discover :
    Surroundings → ℕ → EcosystemRegistry → EcosystemRegistry × EcosystemSnapshot
unfolding discover_local_node ingest_flux_peers create_snapshot
discover w now r =
    let r' = discover_local_node w now r in
    let r' = if connected w.flux then ingest_flux_peers w now r' else r' in
    (r', create_snapshot w.identity.node_id r')
