-- ===== src/Navigation/Candidates.antt =====
-- src/shyam/navigation/candidates.py: the (node, provider, capability) triples of a snapshot that
-- offer a capability. The three nested loops append to one list; here each returns its part.
use shyam.Base.{String, List, [], ◌∷◌, ◌++◌, ite}
use shyam.Base.{str_discrete}
use shyam.Base.Dict.{Dict}
use shyam.Discovery.Models.{
  DiscoveredCapability, DiscoveredProvider, DiscoveredNode, EcosystemSnapshot,
}
use shyam.Navigation.Models.{NavigationCandidate}
use shyam.Values.{dict, of_entries}

unfoldable pub candidate :
    DiscoveredNode → DiscoveredProvider → DiscoveredCapability → NavigationCandidate
candidate node provider cap = record {
  node_id = node.node_id;
  node_name = node.node_name;
  provider_id = provider.provider_id;
  provider_name = provider.name;
  capability_id = cap.capability_id;
  is_local = node.is_local;
  node_state = node.state;
  provider_status = provider.status;
  capability_availability = cap.availability;
  metadata =
      ("node", dict (of_entries node.metadata))
      ∷ ("provider", dict (of_entries provider.metadata))
      ∷ [];
}

-- `for cap in provider.capabilities`
unfoldable pub from_capabilities :
    String
    → DiscoveredNode
    → DiscoveredProvider
    → List DiscoveredCapability
    → List NavigationCandidate
unfolding candidate
from_capabilities id node provider [] = []
from_capabilities id node provider (cap ∷ caps) =
    let rest = from_capabilities id node provider caps in
    ite (str_discrete cap.capability_id id) (candidate node provider cap ∷ rest) rest

-- `for provider_id, provider in node.providers.items()`
unfoldable pub from_providers :
    String → DiscoveredNode → Dict DiscoveredProvider → List NavigationCandidate
unfolding from_capabilities
from_providers id node [] = []
from_providers id node ((_, provider) ∷ providers) =
    from_capabilities id node provider provider.capabilities ++ from_providers id node providers

-- `for node_id, node in snapshot.nodes.items()`
unfoldable pub from_nodes : String → Dict DiscoveredNode → List NavigationCandidate
unfolding from_providers
from_nodes id [] = []
from_nodes id ((_, node) ∷ nodes) = from_providers id node node.providers ++ from_nodes id nodes

unfoldable pub discover_candidates : EcosystemSnapshot → String → List NavigationCandidate
unfolding from_nodes
discover_candidates snapshot capability_id = from_nodes capability_id snapshot.nodes
