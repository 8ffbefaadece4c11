-- ===== src/Navigation/Selection.antt =====
-- src/shyam/navigation/policy.py: what `evaluate` selects.
use mathlib.Core.List.{Mem}
use shyam.Base.{
  String, ◌≡◌, ◌↔◌, subst, inl, inr, none, some, List, [], ◌∷◌, arith, All, All-map, All-of_mem,
  Option-cases,
}
use shyam.Navigation.Models.{NavigationConstraints, NavigationCandidate, NavigationResult}
use shyam.Navigation.Eligible.{IsEligible, rejection-none_iff}
use shyam.Navigation.Partition.{ranking, ranking-evaluate, filter-All, All-of_filter}
use shyam.Navigation.Policy.{filter_candidates, evaluate, conclude}
use shyam.Navigation.Policy.Eligibility.{rejection}
use shyam.Navigation.Policy.Ranking.{ranking_key, le_key_total, sorted}
use shyam.Navigation.Sorting.{Before, IsRanked, sorted-IsRanked, All-sorted, All-of_sorted}

module _ (k : NavigationConstraints) where
  -- What holds of every candidate that passes holds of the selected one.
  All-head :
      (P : NavigationCandidate → Type 0) (r : NavigationResult) (c : NavigationCandidate)
      → r.selected ≡ some c
      → All P (ranking r)
      → P c
  All-head P r c e h = let h' : All P (c ∷ r.alternatives) = rw e at h in h'.0

  pub selected-All :
      (P : NavigationCandidate → Type 0) (cap : String) (cs : List NavigationCandidate)
      (c : NavigationCandidate)
      → All P cs
      → (evaluate cap cs k).selected ≡ some c
      → (rejection k c ≡ none) × P c
  selected-All P cap cs c h e =
      All-head (λ d. (rejection k d ≡ none) × P d) (evaluate cap cs k) c e
        (rw ranking-evaluate (All-sorted k _ _ (filter-All k P cs h)))

  head-Before :
      (xs ys : List NavigationCandidate) (c : NavigationCandidate)
      → c ∷ ys ≡ xs
      → IsRanked k xs
      → All (Before k c) xs
  head-Before [] ys c e h = tt
  head-Before (x ∷ xs) ys c e h =
      let p : x ≡ c = (cc) in
      subst (λ y. All (Before k y) (x ∷ xs)) p
        (ground (arith, le_key_total (ranking_key k x) (ranking_key k x)), h.0)

  pub selected-Before :
      (cap : String) (cs : List NavigationCandidate) (c : NavigationCandidate)
      → (evaluate cap cs k).selected ≡ some c
      → All (λ d. rejection k d ≡ none → Before k c d) cs
  selected-Before cap cs c e = All-of_filter k (Before k c) cs (
      All-of_sorted k (Before k c) _ (
        head-Before (sorted k (filter_candidates k cs).0) (evaluate cap cs k).alternatives c
          (rw e at (ranking-evaluate k cap cs)) (sorted-IsRanked k _)))

  -- The selected candidate is eligible, is one of the candidates, and no eligible candidate has a
  -- smaller ranking key.
  pub evaluate-selects_best :
      (cap : String) (cs : List NavigationCandidate) (c : NavigationCandidate)
      → (evaluate cap cs k).selected ≡ some c
      → IsEligible k c × Mem c cs × All (λ d. IsEligible k d → Before k c d) cs
  evaluate-selects_best cap cs c e =
      let (fit, here) = selected-All (λ d. Mem d cs) cap cs c (All-of_mem cs (λ d m. m)) e in
      (
        (rejection-none_iff k c).0 fit,
        here,
        All-map (λ d f g. f ((rejection-none_iff k d).1 g)) cs (selected-Before cap cs c e),
      )

  unselected_empty :
      (cap : String) (cs : List NavigationCandidate)
      → (evaluate cap cs k).selected ≡ none
      → sorted k (filter_candidates k cs).0 ≡ []
  unfolding evaluate conclude
  unselected_empty cap cs e = ground arith

  unselected-All :
      (cap : String) (cs : List NavigationCandidate)
      → (evaluate cap cs k).selected ≡ none
      → All (λ d. rejection k d ≡ none → ⊥) cs
  unselected-All cap cs e =
      All-of_filter k (λ d. ⊥) cs (All-of_sorted k (λ d. ⊥) _ (rw (unselected_empty cap cs e) tt))

  -- Nothing is selected exactly when no candidate is eligible.
  pub evaluate-none_iff :
      (cap : String) (cs : List NavigationCandidate)
      → ((evaluate cap cs k).selected ≡ none) ↔ All (λ c. ¬ IsEligible k c) cs
  evaluate-none_iff cap cs = (
    λ e. All-map (λ c f g. f ((rejection-none_iff k c).1 g)) cs (unselected-All cap cs e),
    λ h. elim (Option-cases (evaluate cap cs k).selected) [
      | inl e ↦ e
      | inr (c, e) ↦
          let (fit, bad) = selected-All (λ d. ¬ IsEligible k d) cap cs c h e in
          absurd (bad ((rejection-none_iff k c).0 fit))
    ],
  )
