-- ===== src/Navigation/Tests.antt =====
-- src/shyam/navigation on a home network of three nodes.
use mathlib.Core.List.{Perm, Mem, mem-cons_self, mem-cons_of_mem, mem-cons, not-mem-nil}
use mathlib.Core.List.Perm
use mathlib.Core.Logic.Or
use mathlib.Core.HLevel.{Π_prop, hedberg}
use mathlib.Core.Bool.{false≢true}
use text.Mathlib.TextEquality.{eq_iff}
use native.Mathlib.Decide.{ℕ_discrete}
use shyam.Base.{
  ◌≤◌, ◌+◌, ◌≢◌, String, ◌≡◌, ◌↔◌, subst, sym, refl, true, false, Bool, none, some, List, [], ◌∷◌,
  ◌++◌, All, str_discrete, opt_discrete,
}
use shyam.Capabilities.{AvailabilityStatus, status_discrete}
use shyam.Discovery.Models.{
  DiscoveredCapability, DiscoveredProvider, DiscoveredNode, EcosystemSnapshot, EcosystemNodeState,
  state_discrete,
}
use shyam.Navigation.Models.{
  NavigationConstraints, no_constraints, NavigationRequest, NavigationCandidate,
}
use shyam.Navigation.Candidates.{candidate}
use shyam.Navigation.Completeness.{navigate_complete}
use shyam.Navigation.Determinism.{IsKeyed, Prefers, evaluate-perm, evaluate-Prefers}
use shyam.Discovery.Registry.{EcosystemRegistry, create_snapshot, reconcile_stale, get_node}
use shyam.Discovery.Memory.{IsIndexed}
use shyam.Discovery.Peers.{handle_udp_peer_lost}
use shyam.Base.Dict
use shyam.Base.Sets.{elem}
use shyam.Navigation.Lost.{lost-navigate}
use shyam.Navigation.Freshness.{reconcile-navigate_fresh}
use shyam.Navigation.Eligible.{IsEligible, rejection-none_iff}
use shyam.Navigation.Navigator.{navigate}
use shyam.Navigation.Partition.{HasReason, ranking, refused, evaluate-partition}
use shyam.Navigation.Policy.{evaluate}
use shyam.Navigation.Policy.Eligibility.{rejection}
use shyam.Navigation.Policy.Ranking.{sorted, le_key, ranking_key}
use shyam.Base.Text.{le_str}
use shyam.Navigation.Selection.{evaluate-selects_best}
use shyam.Navigation.Soundness.{Offers, navigate_sound}
use shyam.Navigation.Sorting.{Before, IsRanked}

abbrev pub reads : DiscoveredCapability
reads = record {
  capability_id = "file.read";
  name = "read";
  version = "1.0.0";
  description = "";
  availability = AvailabilityStatus.available;
}

abbrev pub files : DiscoveredProvider
files = record {
  provider_id = "local.filesystem";
  name = "files";
  version = "1.0.0";
  description = "";
  capabilities = reads ∷ [];
  status = AvailabilityStatus.available;
  metadata = [];
  last_seen = 10;
}

abbrev pub node_at : String → EcosystemNodeState → Bool → DiscoveredNode
node_at id state here = record {
  node_id = id;
  node_name = id;
  state = state;
  is_local = here;
  protocol_version = "1.0.0";
  providers = ("local.filesystem", files) ∷ [];
  metadata = [];
  first_seen = 0;
  last_seen = 10;
}

abbrev pub laptop : DiscoveredNode
laptop = node_at "laptop" EcosystemNodeState.available true

abbrev pub phone : DiscoveredNode
phone = node_at "phone" EcosystemNodeState.available false

abbrev pub tablet : DiscoveredNode
tablet = node_at "tablet" EcosystemNodeState.stale false

abbrev home : EcosystemSnapshot
home = record {
  local_node_id = "laptop";
  nodes = ("tablet", tablet) ∷ ("phone", phone) ∷ ("laptop", laptop) ∷ [];
}

abbrev prefer_phone : NavigationConstraints
prefer_phone = record no_constraints { preferred_node = some "phone" }

abbrev on : DiscoveredNode → NavigationCandidate
on n = candidate n files reads

abbrev found : List NavigationCandidate
found = on tablet ∷ on phone ∷ on laptop ∷ []

abbrev request : NavigationRequest
request = record { capability = "file.read"; constraints = prefer_phone }

selects_phone : (evaluate "file.read" found prefer_phone).selected ≡ some (on phone)
unfolding candidate evaluate sorted le_key ranking_key le_str rejection state_discrete
    status_discrete str_discrete opt_discrete ℕ_discrete
selects_phone = refl

navigates_to_phone : (navigate request home).selected ≡ some (on phone)
unfolding navigate sorted le_key ranking_key le_str rejection state_discrete status_discrete
    str_discrete opt_discrete ℕ_discrete
navigates_to_phone = refl

phone-IsEligible : IsEligible prefer_phone (on phone)
unfolding candidate rejection state_discrete status_discrete
phone-IsEligible = (rejection-none_iff prefer_phone (on phone)).0 refl

laptop-IsEligible : IsEligible prefer_phone (on laptop)
unfolding candidate rejection state_discrete status_discrete
laptop-IsEligible = (rejection-none_iff prefer_phone (on laptop)).0 refl

rejection-none_iff_example :
    (rejection prefer_phone (on phone) ≡ none) ↔ IsEligible prefer_phone (on phone)
rejection-none_iff_example = rejection-none_iff prefer_phone (on phone)

evaluate-partition_example :
    let r = evaluate "file.read" found prefer_phone in
    Perm (ranking r ++ refused r) found
    × IsRanked prefer_phone (ranking r)
    × All (IsEligible prefer_phone) (ranking r)
    × All (HasReason prefer_phone) r.rejected
evaluate-partition_example = evaluate-partition prefer_phone "file.read" found

evaluate-selects_best_example :
    IsEligible prefer_phone (on phone)
    × Mem (on phone) found
    × All (λ d. IsEligible prefer_phone d → Before prefer_phone (on phone) d) found
evaluate-selects_best_example =
    evaluate-selects_best prefer_phone "file.read" found (on phone) selects_phone

navigate_sound_example : Offers home "file.read" (on phone) × IsEligible prefer_phone (on phone)
navigate_sound_example = navigate_sound request home (on phone) navigates_to_phone

laptop-Offers : Offers home "file.read" (on laptop)
laptop-Offers = record {
  node_key = "laptop";
  node = laptop;
  provider_key = "local.filesystem";
  provider = files;
  cap = reads;
  node_in = mem-cons_of_mem _ (mem-cons_of_mem _ mem-cons_self);
  provider_in = mem-cons_self;
  cap_in = mem-cons_self;
  cap_named = refl;
  triple = refl;
}

navigate_complete_example :
    (c : NavigationCandidate) × ((navigate request home).selected ≡ some c)
    × Before prefer_phone c (on laptop)
navigate_complete_example =
    navigate_complete request home (on laptop) laptop-Offers laptop-IsEligible

evaluate-Prefers_example : Prefers prefer_phone (on phone) (on laptop)
evaluate-Prefers_example =
    evaluate-Prefers prefer_phone "file.read" found (on phone) (on laptop) selects_phone
      (mem-cons_of_mem _ (mem-cons_of_mem _ mem-cons_self)) laptop-IsEligible

NavigationCandidate-set : IsSet NavigationCandidate
NavigationCandidate-set = hlevel (hedberg str_discrete)

abbrev pair : List NavigationCandidate
pair = on phone ∷ on laptop ∷ []

pair_cases :
    (c : NavigationCandidate) (P : NavigationCandidate → Type 0)
    → IsProp (P c)
    → Mem c pair
    → P (on phone)
    → P (on laptop)
    → P c
pair_cases c P prop m p q =
    Or.elim prop (mem-cons.0 m) (λ e. subst P (sym e) p)
      (λ n. Or.elim prop (mem-cons.0 n) (λ e. subst P (sym e) q) (λ o. absurd (not-mem-nil o)))

pair-IsKeyed : IsKeyed pair
unfolding candidate
pair-IsKeyed c d m n =
    pair_cases c (λ x. x.node_id ≡ d.node_id → x.provider_id ≡ d.provider_id → x ≡ d)
      (Π_prop (λ _. Π_prop (λ _. NavigationCandidate-set _ _))) m
      (pair_cases d
        (λ y.
          (on phone).node_id ≡ y.node_id → (on phone).provider_id ≡ y.provider_id → on phone ≡ y)
        (Π_prop (λ _. Π_prop (λ _. NavigationCandidate-set _ _))) n (λ _ _. refl)
        (λ e _. absurd (apart e)))
      (pair_cases d
        (λ y.
          (on laptop).node_id ≡ y.node_id → (on laptop).provider_id ≡ y.provider_id → on laptop ≡ y)
        (Π_prop (λ _. Π_prop (λ _. NavigationCandidate-set _ _))) n (λ e _. absurd (apart (sym e)))
        (λ _ _. refl))
  where
    apart : ◌≡◌ {A = String} "phone" "laptop" → ⊥
    apart e = false≢true ((eq_iff "phone" "laptop").1 e)

evaluate-perm_example :
    (evaluate "file.read" pair prefer_phone).selected
    ≡ (evaluate "file.read" (on laptop ∷ on phone ∷ []) prefer_phone).selected
evaluate-perm_example =
    evaluate-perm prefer_phone "file.read" pair (on laptop ∷ on phone ∷ [])
      (Perm.swap (on laptop) (on phone) []) pair-IsKeyed

-- The snapshot of a registry after a sweep: the phone was seen at 10, and 15 is within the threshold.
abbrev swept : EcosystemSnapshot
swept = create_snapshot "" (reconcile_stale 20 15 (record { nodes = home.nodes; has_bus = true })).0

navigates_after_sweep : (navigate request swept).selected ≡ some (on phone)
unfolding navigate sorted le_key ranking_key le_str rejection state_discrete status_discrete
    str_discrete opt_discrete ℕ_discrete create_snapshot reconcile_stale
navigates_after_sweep = refl

reconcile-navigate_fresh_example :
    (offer : Offers swept "file.read" (on phone)) × (offer.node.is_local ≡ false
      → 15 ≤ offer.node.last_seen + 20)
reconcile-navigate_fresh_example =
    reconcile-navigate_fresh 20 15 (record { nodes = home.nodes; has_bus = true }) "" request
      (on phone) navigates_after_sweep

abbrev home_registry : EcosystemRegistry
home_registry = record { nodes = home.nodes; has_bus = true }

home-IsIndexed : IsIndexed home.nodes
unfolding elem str_discrete
home-IsIndexed = record { once = (refl, (refl, (refl, tt))); named = (refl, (refl, (refl, tt))) }

tablet_known : get_node "tablet" home_registry ≡ some tablet
unfolding get_node Dict.get str_discrete
tablet_known = refl

navigates_after_loss :
    (navigate request (create_snapshot "" (handle_udp_peer_lost "tablet" home_registry))).selected
    ≡ some (on phone)
unfolding navigate sorted le_key ranking_key le_str rejection state_discrete status_discrete
    str_discrete opt_discrete ℕ_discrete create_snapshot handle_udp_peer_lost Dict.get Dict.put
navigates_after_loss = refl

lost-navigate_example : ◌≢◌ {A = String} "phone" "tablet"
unfolding candidate
lost-navigate_example =
    lost-navigate "tablet" home_registry tablet "" request (on phone) home-IsIndexed tablet_known
      refl navigates_after_loss
