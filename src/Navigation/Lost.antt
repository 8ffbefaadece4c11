-- ===== src/Navigation/Lost.antt =====
-- src/shyam/navigation/navigator.py over a registry that was told, by `handle_udp_peer_lost` of
-- src/shyam/discovery/ecosystem_service.py, that a peer is lost.
use mathlib.Core.HLevel.{Π_prop, hedberg}
use shyam.Base.{
  String, true, false, ◌≡◌, ◌≢◌, refl, sym, subst, ap, ◌∙◌, some, [], ◌∷◌, ite, All, All-mem,
  str_discrete, arith,
}
use shyam.Base.Dict
use shyam.Base.Dict.{Dict}
use shyam.Base.Sets.{elem, IsDict}
use shyam.Discovery.Memory.{IsIndexed, get-IsIndexed, register_node-nodes}
use shyam.Discovery.Models.{unavailable, state_discrete, DiscoveredNode, with_state}
use shyam.Discovery.Peers.{lose, handle_udp_peer_lost}
use shyam.Discovery.Registry.{EcosystemRegistry, get_node, register_node, create_snapshot}
use shyam.Navigation.Candidates.{candidate}
use shyam.Navigation.Models.{NavigationRequest, NavigationCandidate}
use shyam.Navigation.Navigator.{navigate}
use shyam.Navigation.Soundness.{navigate_sound}

module _ (id : String) where
  abbrev IsGone : String × DiscoveredNode → Type 0
  IsGone e = e.1.node_id ≡ id → e.1.state ≡ unavailable

  IsGone-prop : (e : String × DiscoveredNode) → IsProp (IsGone e)
  IsGone-prop e = Π_prop (λ _. hedberg state_discrete _ _)

  abbrev IsNamed : String × DiscoveredNode → Type 0
  IsNamed e = e.1.node_id ≡ e.0

  -- Nodes that stand under other ids are other nodes.
  absent-IsGone :
      (nodes : Dict DiscoveredNode)
      → All IsNamed nodes
      → elem id (Dict.keys nodes) ≡ false
      → All IsGone nodes
  unfolding elem
  absent-IsGone [] n h = tt
  absent-IsGone ((j, m) ∷ nodes) n h =
      (λ e. absurd (ground arith), absent-IsGone nodes n.1 (ground arith))

  put-IsGone :
      (n : DiscoveredNode) (nodes : Dict DiscoveredNode)
      → IsDict nodes
      → All IsNamed nodes
      → All IsGone (Dict.put id (with_state n unavailable) nodes)
  unfolding Dict.put with_state
  put-IsGone n [] d k = (λ _. refl, tt)
  put-IsGone n ((j, m) ∷ nodes) d k =
      elim (str_discrete j id)
        as (λ c. All IsGone (
          ite c ((j, with_state n unavailable) ∷ nodes)
            ((j, m) ∷ Dict.put id (with_state n unavailable) nodes))) [
              | yes p ↦ (
                λ _. refl,
                absent-IsGone nodes k.1 (subst (λ x. elem x (Dict.keys nodes) ≡ false) p d.0),
              )
              | no q ↦ (λ e. absurd (q (sym k.0 ∙ e)), put-IsGone n nodes d.1 k.1)
            ]

  lose-remote :
      (r : EcosystemRegistry) (n : DiscoveredNode)
      → n.is_local ≡ false
      → lose (some n) r ≡ (register_node (with_state n unavailable) true r).0
  unfolding lose
  lose-remote r n l = ground arith

  lost-nodes :
      (r : EcosystemRegistry) (n : DiscoveredNode)
      → get_node id r ≡ some n
      → n.is_local ≡ false
      → (handle_udp_peer_lost id r).nodes ≡ Dict.put n.node_id (with_state n unavailable) r.nodes
  unfolding handle_udp_peer_lost with_state
  lost-nodes r n g l =
      ap (λ o. (lose o r).nodes) g
      ∙ ap (λ (x : EcosystemRegistry). x.nodes) (lose-remote r n l)
      ∙ register_node-nodes (with_state n unavailable) r

  lost-IsGone :
      (r : EcosystemRegistry) (n : DiscoveredNode)
      → IsIndexed r.nodes
      → get_node id r ≡ some n
      → n.is_local ≡ false
      → All IsGone (handle_udp_peer_lost id r).nodes
  lost-IsGone r n k g l =
      subst (All IsGone)
        (sym (
          lost-nodes r n g l
          ∙ ap (λ j. Dict.put j (with_state n unavailable) r.nodes)
              (get-IsIndexed id n r.nodes k.named (unfold get_node in g))))
        (put-IsGone n r.nodes k.once k.named)

  -- Once a remote peer is lost, `navigate` selects nothing on its node, in a registry in which each node
  -- stands once under its own id.
  pub lost-navigate :
      (r : EcosystemRegistry) (n : DiscoveredNode) (local_node_id : String) (q : NavigationRequest)
      (c : NavigationCandidate)
      → IsIndexed r.nodes
      → get_node id r ≡ some n
      → n.is_local ≡ false
      → (navigate q (create_snapshot local_node_id (handle_udp_peer_lost id r))).selected ≡ some c
      → c.node_id ≢ id
  unfolding create_snapshot candidate
  lost-navigate r n local_node_id q c k g l e here =
      let (offer, eligible) = navigate_sound q _ c e in
      let gone =
        All-mem IsGone-prop (handle_udp_peer_lost id r).nodes (offer.node_key, offer.node)
          (lost-IsGone r n k g l) offer.node_in in
      eligible.node_reachable (
        ap (λ (x : NavigationCandidate). x.node_state) offer.triple
        ∙ gone (sym (ap (λ (x : NavigationCandidate). x.node_id) offer.triple) ∙ here))
