-- ===== src/Discovery/Registry.antt =====
-- src/shyam/discovery/ecosystem_registry.py. A method takes the registry and gives the new one, its
-- result and what it published. The lock makes each method one step; a clock reading is an argument.
use shyam.Base.{
  ℕ, ◌+◌, String, Bool, true, false, not, ◌&&◌, Option, none, some, List, [], ◌∷◌, map, ite,
  if◌then◌else◌, str_discrete, ltb, keep, length,
}
use shyam.Base.Dict
use shyam.Base.Dict.{Dict}
use shyam.Base.Sets.{elem}
use shyam.Discovery.Models.{
  EcosystemNodeState, known, available, stale, state_discrete, DiscoveredProvider, DiscoveredNode,
  with_touch, with_state, with_provider, without_provider, capability_ids, EcosystemSnapshot,
}

pub data EcosystemEvent : Type 0 where
  node_discovered : DiscoveredNode → EcosystemEvent
  node_updated : DiscoveredNode → Option EcosystemNodeState → EcosystemEvent
  node_stale : String → String → ℕ → EcosystemEvent
  node_lost : String → String → ℕ → EcosystemEvent

-- `has_bus` tells whether the registry was given an event bus.
pub record EcosystemRegistry : Type 0 where
  pub nodes : Dict DiscoveredNode
  pub has_bus : Bool

abbrev pub Reply : Type 0 → Type 0
Reply A = EcosystemRegistry × A × List EcosystemEvent

-- `if self._event_bus: …`
unfoldable pub published : EcosystemRegistry → List EcosystemEvent → List EcosystemEvent
published r events = if r.has_bus then events else []

-- `self._nodes[node_id] = node`
unfoldable pub set_node : String → DiscoveredNode → EcosystemRegistry → EcosystemRegistry
set_node node_id node r = record r { nodes = Dict.put node_id node r.nodes }

unfoldable pub get_node : String → EcosystemRegistry → Option DiscoveredNode
get_node node_id r = Dict.get node_id r.nodes

unfoldable pub count : EcosystemRegistry → ℕ
count r = length r.nodes

-- What `register_node` does, by the node that was registered under the id.
unfoldable pub register_over :
    DiscoveredNode → Bool → EcosystemRegistry → Option DiscoveredNode → Reply DiscoveredNode
unfolding set_node published
register_over node overwrite r none =
    (set_node node.node_id node r, node, published r (node_discovered node ∷ []))
register_over node overwrite r (some existing) =
    if overwrite
    then (
      set_node node.node_id node r,
      node,
      published r (node_updated node (some existing.state) ∷ []),
    )
    else (r, existing, [])

unfoldable pub register_node : DiscoveredNode → Bool → EcosystemRegistry → Reply DiscoveredNode
unfolding register_over get_node
register_node node overwrite r = register_over node overwrite r (get_node node.node_id r)

-- `if updated.state == STALE: updated = updated.with_state(AVAILABLE)`
unfoldable pub revived : DiscoveredNode → DiscoveredNode
unfolding with_state state_discrete
revived n = ite (state_discrete n.state stale) (with_state n available) n

-- No event is published.
unfoldable pub touch_node : String → ℕ → EcosystemRegistry → Reply (Option DiscoveredNode)
unfolding get_node set_node revived with_touch
touch_node node_id seen_at r = elim (get_node node_id r) [
  | none ↦ (r, none, [])
  | some existing ↦
      let updated = revived (with_touch existing seen_at) in
      (set_node node_id updated r, some updated, [])
]

-- `self._nodes[node_id] = updated`, and the event that tells of it.
unfoldable pub update :
    String → DiscoveredNode → DiscoveredNode → EcosystemRegistry → Reply (Option DiscoveredNode)
unfolding set_node published
update node_id existing updated r = (
  set_node node_id updated r,
  some updated,
  published r (node_updated updated (some existing.state) ∷ []),
)

unfoldable pub update_node_state :
    String → EcosystemNodeState → EcosystemRegistry → Reply (Option DiscoveredNode)
unfolding get_node update with_state state_discrete
update_node_state node_id state r = elim (get_node node_id r) [
  | none ↦ (r, none, [])
  | some existing ↦
      ite (state_discrete existing.state state) (r, some existing, [])
        (update node_id existing (with_state existing state) r)
]

unfoldable pub add_provider :
    String → DiscoveredProvider → EcosystemRegistry → Reply (Option DiscoveredNode)
unfolding get_node update with_provider
add_provider node_id provider r = elim (get_node node_id r) [
  | none ↦ (r, none, [])
  | some existing ↦ update node_id existing (with_provider existing provider) r
]

unfoldable pub remove_provider : String → String → EcosystemRegistry → Reply (Option DiscoveredNode)
unfolding get_node update without_provider elem
remove_provider node_id provider_id r = elim (get_node node_id r) [
  | none ↦ (r, none, [])
  | some existing ↦
      if elem provider_id (Dict.keys existing.providers)
      then update node_id existing (without_provider existing provider_id) r
      else (r, some existing, [])
]

unfoldable pub remove_node : String → EcosystemRegistry → Reply (Option DiscoveredNode)
unfolding get_node published
remove_node node_id r = elim (get_node node_id r) [
  | none ↦ (r, none, [])
  | some removed ↦ (
    record r { nodes = Dict.pop node_id r.nodes },
    some removed,
    published r (node_lost removed.node_id removed.node_name removed.last_seen ∷ []),
  )
]

-- The first local one of some nodes.
unfoldable pub first_local : List DiscoveredNode → Option DiscoveredNode
first_local [] = none
first_local (n ∷ ns) = if n.is_local then some n else first_local ns

unfoldable pub get_local_node : EcosystemRegistry → Option DiscoveredNode
unfolding first_local
get_local_node r = first_local (Dict.values r.nodes)

unfoldable pub list_nodes : Option EcosystemNodeState → EcosystemRegistry → List DiscoveredNode
unfolding state_discrete
list_nodes filter r = elim filter [
  | none ↦ Dict.values r.nodes
  | some state ↦ keep (λ n. ite (state_discrete n.state state) true false) (Dict.values r.nodes)
]

unfoldable pub find_nodes_by_capability : String → EcosystemRegistry → List DiscoveredNode
unfolding elem capability_ids
find_nodes_by_capability id r = keep (λ n. elem id (capability_ids n)) (Dict.values r.nodes)

unfoldable pub find_nodes_by_provider : String → EcosystemRegistry → List DiscoveredNode
unfolding elem
find_nodes_by_provider id r = keep (λ n. elem id (Dict.keys n.providers)) (Dict.values r.nodes)

-- `node.state in (AVAILABLE, KNOWN)`
unfoldable pub can_go_stale : EcosystemNodeState → Bool
can_go_stale s = elim s [ known ↦ true | available ↦ true | _ ↦ false ]

-- Whether the loop of `reconcile_stale` marks a node. `now - last_seen > threshold` is written without
-- the difference, which may be negative.
unfoldable pub goes_stale : ℕ → ℕ → DiscoveredNode → Bool
unfolding can_go_stale
goes_stale threshold now n =
    not n.is_local && can_go_stale n.state && ltb (n.last_seen + threshold) now

unfoldable pub reconcile_node : ℕ → ℕ → String × DiscoveredNode → String × DiscoveredNode
unfolding goes_stale with_state
reconcile_node threshold now (node_id, n) =
    (node_id, if goes_stale threshold now n then with_state n stale else n)

-- The entries that the loop marks, as they were before.
unfoldable pub marked : ℕ → ℕ → Dict DiscoveredNode → Dict DiscoveredNode
unfolding goes_stale
marked threshold now nodes = keep (λ e. goes_stale threshold now e.1) nodes

unfoldable pub reconcile_stale : ℕ → ℕ → EcosystemRegistry → Reply (List String)
unfolding reconcile_node marked published
reconcile_stale threshold now r =
    let gone = marked threshold now r.nodes in
    (
      record r { nodes = map (reconcile_node threshold now) r.nodes },
      Dict.keys gone,
      published r (map (λ n. node_stale n.node_id n.node_name n.last_seen) (Dict.values gone)),
    )

-- `loc.node_id if loc else "unknown"`
abbrev pub local_id_of : Option DiscoveredNode → String
local_id_of none = "unknown"
local_id_of (some n) = n.node_id

unfoldable pub create_snapshot : String → EcosystemRegistry → EcosystemSnapshot
unfolding get_local_node
create_snapshot local_node_id r = record {
  local_node_id =
      ite (str_discrete local_node_id "") (local_id_of (get_local_node r)) local_node_id;
  nodes = r.nodes;
}
