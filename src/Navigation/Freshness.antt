-- ===== src/Navigation/Freshness.antt =====
-- src/shyam/navigation/navigator.py over a snapshot that `reconcile_stale` of
-- src/shyam/discovery/ecosystem_registry.py has just swept.
use shyam.Base.{
  ℕ, ◌+◌, ◌≤◌, String, false, ◌≡◌, ◌≢◌, ap, ◌∙◌, some, [], ◌∷◌, map, All, All-mem, arith,
}
use shyam.Base.Dict.{Dict}
use shyam.Discovery.Models.{unavailable, stale, DiscoveredNode, with_state}
use shyam.Discovery.Registry.{
  EcosystemRegistry, can_go_stale, goes_stale, reconcile_node, reconcile_stale, create_snapshot,
}
use shyam.Navigation.Candidates.{candidate}
use shyam.Navigation.Models.{NavigationRequest, NavigationCandidate}
use shyam.Navigation.Navigator.{navigate}
use shyam.Navigation.Soundness.{Offers, navigate_sound}

module _ (threshold now : ℕ) where
  abbrev IsSwept : String × DiscoveredNode → Type 0
  IsSwept e = goes_stale threshold now e.1 ≡ false

  IsSwept-prop : (e : String × DiscoveredNode) → IsProp (IsSwept e)
  IsSwept-prop e = hlevel

  reconcile_node-IsSwept : (e : String × DiscoveredNode) → IsSwept (reconcile_node threshold now e)
  unfolding reconcile_node goes_stale with_state can_go_stale
  reconcile_node-IsSwept (id, n) = ground arith

  reconciled-IsSwept :
      (nodes : Dict DiscoveredNode) → All IsSwept (map (reconcile_node threshold now) nodes)
  reconciled-IsSwept [] = tt
  reconciled-IsSwept (e ∷ nodes) = (reconcile_node-IsSwept e, reconciled-IsSwept nodes)

  fresh_enough :
      (n : DiscoveredNode)
      → goes_stale threshold now n ≡ false
      → n.state ≢ stale
      → n.state ≢ unavailable
      → n.is_local ≡ false
      → now ≤ n.last_seen + threshold
  unfolding goes_stale can_go_stale
  fresh_enough n h s u l = ground arith

  -- Whatever `navigate` selects right after a sweep is on the local node, or on a node that was seen
  -- within the threshold.
  pub reconcile-navigate_fresh :
      (r : EcosystemRegistry) (local_node_id : String) (q : NavigationRequest)
      (c : NavigationCandidate)
      → (navigate q (create_snapshot local_node_id (reconcile_stale threshold now r).0)).selected
        ≡ some c
      → (offer : Offers
          (create_snapshot local_node_id (reconcile_stale threshold now r).0)
          q.capability
          c)
        × (offer.node.is_local ≡ false → now ≤ offer.node.last_seen + threshold)
  unfolding create_snapshot reconcile_stale candidate
  reconcile-navigate_fresh r local_node_id q c e =
      let (offer, eligible) = navigate_sound q _ c e in
      let state_of = ap (λ (x : NavigationCandidate). x.node_state) offer.triple in
      let swept =
        All-mem IsSwept-prop (map (reconcile_node threshold now) r.nodes)
          (offer.node_key, offer.node) (reconciled-IsSwept r.nodes) offer.node_in in
      (
        offer,
        fresh_enough offer.node swept (λ h. eligible.node_fresh (state_of ∙ h))
            (λ h. eligible.node_reachable (state_of ∙ h)),
      )
