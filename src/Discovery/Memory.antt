-- ===== src/Discovery/Memory.antt =====
-- src/shyam/discovery/ecosystem_registry.py: registrations that keep what was known before.
use shyam.Base.{
  ℕ, String, true, ◌≡◌, refl, sym, subst, ◌∙◌, ap, some, [], ◌∷◌, ite, All, str_discrete, arith,
}
use shyam.Base.Dict
use shyam.Base.Dict.{Dict, get-put}
use shyam.Base.Sets.{IsDict, put-IsDict}
use shyam.Discovery.Models.{DiscoveredNode}
use shyam.Discovery.Registry.{EcosystemRegistry, get_node, register_node, register_over, set_node}
use shyam.Discovery.Service.{seen_first}

-- Each node stands once, under its own id.
pub record IsIndexed (nodes : Dict DiscoveredNode) : Type 0 where
  pub once : IsDict nodes
  pub named : All (λ e. e.1.node_id ≡ e.0) nodes

put-named :
    (node : DiscoveredNode) (nodes : Dict DiscoveredNode)
    → All (λ (e : String × DiscoveredNode). e.1.node_id ≡ e.0) nodes
    → All (λ (e : String × DiscoveredNode). e.1.node_id ≡ e.0) (Dict.put node.node_id node nodes)
unfolding Dict.put
put-named node [] h = (refl, tt)
put-named node ((j, m) ∷ nodes) h =
    elim (str_discrete j node.node_id)
      as (λ d.
        All (λ (e : String × DiscoveredNode). e.1.node_id ≡ e.0)
          (ite d ((j, node) ∷ nodes) ((j, m) ∷ Dict.put node.node_id node nodes))) [
            | yes p ↦ (sym p, h.1)
            | no n ↦ (h.0, put-named node nodes h.1)
          ]

put-IsIndexed :
    (node : DiscoveredNode) (nodes : Dict DiscoveredNode)
    → IsIndexed nodes
    → IsIndexed (Dict.put node.node_id node nodes)
put-IsIndexed node nodes k = record {
  once = put-IsDict node.node_id node nodes k.once;
  named = put-named node nodes k.named;
}

pub get-IsIndexed :
    (id : String) (n : DiscoveredNode) (nodes : Dict DiscoveredNode)
    → All (λ (e : String × DiscoveredNode). e.1.node_id ≡ e.0) nodes
    → Dict.get id nodes ≡ some n
    → n.node_id ≡ id
unfolding Dict.get
get-IsIndexed id n [] h g = cc
get-IsIndexed id n ((j, m) ∷ nodes) h g = ground (arith, get-IsIndexed id n nodes, h.0)

-- From one registry to the next no node is forgotten, and each keeps when it was first seen.
abbrev pub Remembers : EcosystemRegistry → EcosystemRegistry → Type 0
Remembers r r' =
    (id : String) (n : DiscoveredNode)
    → get_node id r ≡ some n
    → (n' : DiscoveredNode) × (get_node id r' ≡ some n') × (n'.first_seen ≡ n.first_seen)

-- A step of the registry that keeps the keys, and remembers.
pub record Advances (r r' : EcosystemRegistry) : Type 0 where
  pub keyed : IsIndexed r'.nodes
  pub remembers : Remembers r r'

pub Advances-trans :
    (r r' : EcosystemRegistry) {r2 : EcosystemRegistry}
    → Advances r r'
    → Advances r' r2
    → Advances r r2
Advances-trans r r' a b = record {
  keyed = b.keyed;
  remembers = λ id n g.
      let (n', g', f) = a.remembers id n g in
      let (m, h, f') = b.remembers id n' g' in (m, h, f' ∙ f);
}

pub Advances-refl : (r : EcosystemRegistry) → IsIndexed r.nodes → Advances r r
Advances-refl r k = record { keyed = k; remembers = λ id n g. (n, g, refl) }

pub register_node-nodes :
    (node : DiscoveredNode) (r : EcosystemRegistry)
    → (register_node node true r).0.nodes ≡ Dict.put node.node_id node r.nodes
unfolding register_node register_over set_node
register_node-nodes node r = ground arith

get_node-register :
    (id : String) (node : DiscoveredNode) (r : EcosystemRegistry)
    → get_node id (register_node node true r).0
      ≡ ite (str_discrete node.node_id id) (some node) (get_node id r)
unfolding get_node
get_node-register id node r =
    ap (Dict.get id) (register_node-nodes node r) ∙ get-put id node.node_id node r.nodes

remembered :
    (node : DiscoveredNode) (default : ℕ) (r : EcosystemRegistry)
    → node.first_seen ≡ seen_first (get_node node.node_id r) default
    → Remembers r (register_node node true r).0
remembered node default r f id n g = elim (str_discrete node.node_id id) [
  | yes p ↦ (
    node,
    ground (arith, get_node-register id node r),
    f ∙ ap (λ o. seen_first o default) (ap (λ j. get_node j r) p ∙ g),
  )
  | no d ↦ (n, ground (arith, get_node-register id node r), refl)
]

-- A registration that takes over when the node was first seen.
pub register_node-Advances :
    (node : DiscoveredNode) (default : ℕ) (r : EcosystemRegistry)
    → node.first_seen ≡ seen_first (get_node node.node_id r) default
    → IsIndexed r.nodes
    → Advances r (register_node node true r).0
register_node-Advances node default r f k = record {
  keyed = subst IsIndexed (sym (register_node-nodes node r)) (put-IsIndexed node r.nodes k);
  remembers = remembered node default r f;
}
