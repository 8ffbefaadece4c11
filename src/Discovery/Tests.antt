-- ===== src/Discovery/Tests.antt =====
-- src/shyam/discovery/ecosystem_registry.py on a registry that learns of a phone.
use shyam.Base.{true, false, ◌≡◌, refl, some, none, List, [], ◌∷◌, str_discrete}
use shyam.Discovery.History.{
  Call, register, remove, reconcile, run, node_after, get_node-run, concerns, changed, introduced,
}
use shyam.Discovery.Memory.{Advances}
use shyam.Discovery.Occurrences.{announced, discovery, lost, happen, happen-Advances}
use shyam.Discovery.Service.{Surroundings}
use shyam.Discovery.Sources.{Peer}
use shyam.Values.{other}
use shyam.Discovery.Models.{DiscoveredNode, stale, available}
use shyam.Discovery.Registry.{EcosystemRegistry, get_node, can_go_stale}

abbrev pub phone : DiscoveredNode
phone = record {
  node_id = "phone";
  node_name = "phone";
  state = available;
  is_local = false;
  protocol_version = "1.0.0";
  providers = [];
  metadata = [];
  first_seen = 0;
  last_seen = 10;
}

abbrev pub empty : EcosystemRegistry
empty = record { nodes = []; has_bus = true }

-- The phone is found, another node comes and goes, and a sweep at 50 finds the phone stale.
abbrev pub calls : List Call
calls =
    register phone true
    ∷ register (record phone { node_id = "tablet" }) true
    ∷ remove "tablet"
    ∷ reconcile 30 50
    ∷ []

phone_is_stale : node_after "phone" none calls ≡ some (record phone { state = stale })
unfolding node_after concerns changed introduced str_discrete can_go_stale
phone_is_stale = refl

get_node-run_example :
    get_node "phone" (run empty calls) ≡ node_after "phone" (get_node "phone" empty) calls
get_node-run_example = get_node-run "phone" calls empty

abbrev surroundings : Surroundings
surroundings = record {
  identity = record { node_id = "laptop"; node_name = "desk"; protocol_version = "0.2.0" };
  providers = record { entries = []; has_bus = false };
  capabilities = record { entries = []; has_bus = false };
  zarya = none;
  flux = some (record { is_connected = true; descriptor = none; capability_definitions = [] });
  peers = some (
      record { peer_id = "abc"; address = none; paths_count = "1"; connectivity = "reachable" }
      ∷ []);
}

abbrev phone_peer : Peer
phone_peer = record {
  node_id = "phone";
  node_name = "phone";
  address = "10.0.0.2";
  port = "7000";
  protocol_version = "0.2.0";
  discovered_at = 3;
  last_seen = 4;
  metadata = ("has_zarya", other "True") ∷ [];
}

happen-Advances_example :
    Advances empty
      (happen empty (announced phone_peer ∷ discovery surroundings 9 ∷ lost "phone" ∷ []))
happen-Advances_example =
    happen-Advances (announced phone_peer ∷ discovery surroundings 9 ∷ lost "phone" ∷ []) empty
      (record { once = tt; named = tt })
