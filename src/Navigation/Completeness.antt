-- ===== src/Navigation/Completeness.antt =====
-- src/shyam/navigation/navigator.py: an eligible triple of a snapshot and what `navigate` selects.
use mathlib.Core.List.{
  Mem, mem-cons, mem-append_left, mem-append_right, not-mem-nil, mem-cons_self, mem-cons_of_mem,
  Mem-prop,
}
use mathlib.Core.HLevel.{⊥_prop, Π_prop}
use mathlib.Core.Logic.Or
use mathlib.Core.Bool.{Bool-set}
use shyam.Base.{
  String, ◌≡◌, sym, ap, subst, inl, inr, some, List, [], ◌∷◌, All-mem, str_discrete, ite,
  Option-cases,
}
use shyam.Base.Dict.{Dict}
use shyam.Discovery.Models.{
  DiscoveredCapability, DiscoveredProvider, DiscoveredNode, EcosystemSnapshot,
}
use shyam.Navigation.Candidates.{
  candidate, from_capabilities, from_providers, from_nodes, discover_candidates,
}
use shyam.Navigation.Models.{NavigationRequest, NavigationCandidate}
use shyam.Navigation.Eligible.{IsEligible}
use shyam.Navigation.Navigator.{navigate}
use shyam.Navigation.Policy.{evaluate}
use shyam.Navigation.Selection.{evaluate-selects_best, evaluate-none_iff}
use shyam.Navigation.Sorting.{Before}
use shyam.Navigation.Soundness.{Offers}

mem-from_capabilities :
    (node : DiscoveredNode) (provider : DiscoveredProvider) (caps : List DiscoveredCapability)
    (cap : DiscoveredCapability)
    → Mem cap caps
    → Mem (candidate node provider cap) (from_capabilities cap.capability_id node provider caps)
unfolding from_capabilities
mem-from_capabilities node provider [] cap m = absurd (not-mem-nil m)
mem-from_capabilities node provider (d ∷ caps) cap m =
    let rest = from_capabilities cap.capability_id node provider caps in
    elim (str_discrete d.capability_id cap.capability_id)
      as (λ t. Mem (candidate node provider cap) (ite t (candidate node provider d ∷ rest) rest)) [
        | yes e ↦
            Or.elim Mem-prop (mem-cons.0 m)
              (λ p.
                subst (λ x. Mem (candidate node provider cap) (candidate node provider x ∷ rest)) p
                  mem-cons_self)
              (λ n. mem-cons_of_mem _ (mem-from_capabilities node provider caps cap n))
        | no d' ↦
            Or.elim Mem-prop (mem-cons.0 m)
              (λ p. absurd (d' (ap (λ (x : DiscoveredCapability). x.capability_id) (sym p))))
              (λ n. mem-from_capabilities node provider caps cap n)
      ]

mem-from_providers :
    (node : DiscoveredNode) (providers : Dict DiscoveredProvider) (key : String)
    (provider : DiscoveredProvider) (cap : DiscoveredCapability)
    → Mem (key, provider) providers
    → Mem cap provider.capabilities
    → Mem (candidate node provider cap) (from_providers cap.capability_id node providers)
unfolding from_providers
mem-from_providers node [] key provider cap l m = absurd (not-mem-nil l)
mem-from_providers node ((j, q) ∷ providers) key provider cap l m =
    Or.elim Mem-prop (mem-cons.0 l)
      (λ p. mem-append_left _ (
        subst
          (λ x.
            Mem (candidate node provider cap)
              (from_capabilities cap.capability_id node x x.capabilities))
          (ap (λ (x : String × DiscoveredProvider). x.1) p)
          (mem-from_capabilities node provider provider.capabilities cap m)))
      (λ n. mem-append_right _ (mem-from_providers node providers key provider cap n m))

mem-from_nodes :
    (nodes : Dict DiscoveredNode) (nkey : String) (node : DiscoveredNode) (key : String)
    (provider : DiscoveredProvider) (cap : DiscoveredCapability)
    → Mem (nkey, node) nodes
    → Mem (key, provider) node.providers
    → Mem cap provider.capabilities
    → Mem (candidate node provider cap) (from_nodes cap.capability_id nodes)
unfolding from_nodes
mem-from_nodes [] nkey node key provider cap l n m = absurd (not-mem-nil l)
mem-from_nodes ((j, x) ∷ nodes) nkey node key provider cap l n m =
    Or.elim Mem-prop (mem-cons.0 l)
      (λ p. mem-append_left _ (
        subst
          (λ y. Mem (candidate node provider cap) (from_providers cap.capability_id y y.providers))
          (ap (λ (y : String × DiscoveredNode). y.1) p)
          (mem-from_providers node node.providers key provider cap n m)))
      (λ l'. mem-append_right _ (mem-from_nodes nodes nkey node key provider cap l' n m))

Offers-mem :
    (s : EcosystemSnapshot) (id : String) (c : NavigationCandidate)
    → Offers s id c
    → Mem c (discover_candidates s id)
unfolding discover_candidates
Offers-mem s id c o =
    subst (λ i. Mem c (from_nodes i s.nodes)) o.cap_named
      (subst (λ x. Mem x (from_nodes o.cap.capability_id s.nodes)) (sym o.triple)
        (mem-from_nodes s.nodes o.node_key o.node o.provider_key o.provider o.cap o.node_in
          o.provider_in o.cap_in))

-- If the snapshot offers an eligible target, `navigate` selects one, and none that is offered and
-- eligible has a smaller ranking key.
pub navigate_complete :
    (q : NavigationRequest) (s : EcosystemSnapshot) (d : NavigationCandidate)
    → Offers s q.capability d
    → IsEligible q.constraints d
    → (c : NavigationCandidate) × ((navigate q s).selected ≡ some c) × Before q.constraints c d
unfolding navigate
navigate_complete q s d o fit =
    let cs = discover_candidates s q.capability in
    let m = Offers-mem s q.capability d o in
    elim (Option-cases (evaluate q.capability cs q.constraints).selected) [
      | inl e ↦ absurd (
          All-mem (λ x. Π_prop (λ _. ⊥_prop)) cs d
            ((evaluate-none_iff q.constraints q.capability cs).0 e) m fit)
      | inr (c, e) ↦ (
        c,
        e,
        All-mem (λ x. Π_prop (λ _. Bool-set _ _)) cs d
            (evaluate-selects_best q.constraints q.capability cs c e).2 m fit,
      )
    ]
