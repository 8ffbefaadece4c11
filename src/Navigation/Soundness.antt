-- ===== src/Navigation/Soundness.antt =====
-- src/shyam/navigation/navigator.py: the triples of a snapshot and what `navigate` selects.
use mathlib.Core.List.{Mem, mem-cons_self, mem-cons_of_mem}
use shyam.Base.{String, ◌≡◌, refl, some, List, [], ◌∷◌, All, All-append, str_discrete, ite}
use shyam.Base.Dict.{Dict}
use shyam.Discovery.Models.{
  DiscoveredCapability, DiscoveredProvider, DiscoveredNode, EcosystemSnapshot,
}
use shyam.Navigation.Candidates.{
  candidate, from_capabilities, from_providers, from_nodes, discover_candidates,
}
use shyam.Navigation.Models.{NavigationRequest, NavigationCandidate}
use shyam.Navigation.Eligible.{IsEligible}
use shyam.Navigation.Navigator.{navigate}
use shyam.Navigation.Selection.{selected-All, evaluate-selects_best}

-- The snapshot has a node with a provider that offers the capability, and `c` is their triple.
pub record Offers (s : EcosystemSnapshot) (id : String) (c : NavigationCandidate) : Type 0 where
  pub node_key : String
  pub node : DiscoveredNode
  pub provider_key : String
  pub provider : DiscoveredProvider
  pub cap : DiscoveredCapability
  pub node_in : Mem (node_key, node) s.nodes
  pub provider_in : Mem (provider_key, provider) node.providers
  pub cap_in : Mem cap provider.capabilities
  pub cap_named : cap.capability_id ≡ id
  pub triple : c ≡ candidate node provider cap

module _ (id : String) (P : NavigationCandidate → Type 0) where
  All-from_capabilities :
      (node : DiscoveredNode) (provider : DiscoveredProvider) (caps : List DiscoveredCapability)
      → ((cap : DiscoveredCapability)
          → Mem cap caps
          → cap.capability_id ≡ id
          → P (candidate node provider cap))
      → All P (from_capabilities id node provider caps)
  unfolding from_capabilities
  All-from_capabilities node provider [] h = tt
  All-from_capabilities node provider (cap ∷ caps) h =
      let ih = All-from_capabilities node provider caps (λ d m e. h d (mem-cons_of_mem cap m) e) in
      elim (str_discrete cap.capability_id id)
        as (λ d. All P (
          ite d (candidate node provider cap ∷ from_capabilities id node provider caps)
            (from_capabilities id node provider caps))) [
              | yes e ↦ (h cap mem-cons_self e, ih)
              | no _ ↦ ih
            ]

  All-from_providers :
      (node : DiscoveredNode) (providers : Dict DiscoveredProvider)
      → ((key : String) (provider : DiscoveredProvider) (cap : DiscoveredCapability)
          → Mem (key, provider) providers
          → Mem cap provider.capabilities
          → cap.capability_id ≡ id
          → P (candidate node provider cap))
      → All P (from_providers id node providers)
  unfolding from_providers
  All-from_providers node [] h = tt
  All-from_providers node ((key, provider) ∷ providers) h =
      All-append P (from_capabilities id node provider provider.capabilities) _
        (All-from_capabilities node provider provider.capabilities
          (λ cap m e. h key provider cap mem-cons_self m e))
        (All-from_providers node providers (λ j q cap n m e. h j q cap (mem-cons_of_mem _ n) m e))

  All-from_nodes :
      (nodes : Dict DiscoveredNode)
      → ((key : String) (node : DiscoveredNode) (pkey : String) (provider : DiscoveredProvider)
            (cap : DiscoveredCapability)
          → Mem (key, node) nodes
          → Mem (pkey, provider) node.providers
          → Mem cap provider.capabilities
          → cap.capability_id ≡ id
          → P (candidate node provider cap))
      → All P (from_nodes id nodes)
  unfolding from_nodes
  All-from_nodes [] h = tt
  All-from_nodes ((key, node) ∷ nodes) h =
      All-append P (from_providers id node node.providers) _
        (All-from_providers node node.providers
          (λ pkey q cap n m e. h key node pkey q cap mem-cons_self n m e))
        (All-from_nodes nodes
          (λ j x pkey q cap l n m e. h j x pkey q cap (mem-cons_of_mem _ l) n m e))

discover-Offers :
    (s : EcosystemSnapshot) (id : String) → All (Offers s id) (discover_candidates s id)
unfolding discover_candidates
discover-Offers s id = All-from_nodes id (Offers s id) s.nodes λ key node pkey provider cap l n m e.
    record {
      node_key = key;
      node = node;
      provider_key = pkey;
      provider = provider;
      cap = cap;
      node_in = l;
      provider_in = n;
      cap_in = m;
      cap_named = e;
      triple = refl;
    }

-- Whatever `navigate` selects is a capability that the snapshot offers under the requested id, and
-- meets the constraints of the request.
pub navigate_sound :
    (q : NavigationRequest) (s : EcosystemSnapshot) (c : NavigationCandidate)
    → (navigate q s).selected ≡ some c
    → Offers s q.capability c × IsEligible q.constraints c
unfolding navigate
navigate_sound q s c e =
    let cs = discover_candidates s q.capability in
    (
      (selected-All q.constraints (Offers s q.capability) q.capability cs c
          (discover-Offers s q.capability) e).1,
      (evaluate-selects_best q.constraints q.capability cs c e).0,
    )
