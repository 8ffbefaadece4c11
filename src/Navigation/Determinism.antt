-- ===== src/Navigation/Determinism.antt =====
-- src/shyam/navigation/policy.py: the selection against the order of the candidates and the preferences.
use mathlib.Core.List.{Perm, Mem}
use mathlib.Core.List.Perm
use mathlib.Core.HLevel.{⊥_prop, Π_prop}
use mathlib.Core.Bool.{Bool-set}
use shyam.Base.{
  String, ◌≡◌, ap, sym, ◌∙◌, inl, inr, true, none, some, List, arith, All-mem, All-of_mem,
  Option-cases,
}
use shyam.Navigation.Models.{NavigationConstraints, NavigationCandidate}
use shyam.Navigation.Eligible.{IsEligible}
use shyam.Navigation.Policy.{evaluate}
use shyam.Navigation.Policy.Ranking.{RankingKey, ranking_key, le_key, le_key_antisymm}
use shyam.Navigation.Selection.{evaluate-selects_best, evaluate-none_iff}
use shyam.Navigation.Sorting.{Before}

-- No two different candidates have one node and one provider.
abbrev pub IsKeyed : List NavigationCandidate → Type 0
IsKeyed cs =
    (c d : NavigationCandidate)
    → Mem c cs
    → Mem d cs
    → c.node_id ≡ d.node_id
    → c.provider_id ≡ d.provider_id
    → c ≡ d

same_key :
    (k : NavigationConstraints) (c d : NavigationCandidate)
    → Before k c d
    → Before k d c
    → (c.node_id ≡ d.node_id) × (c.provider_id ≡ d.provider_id)
unfolding ranking_key
same_key k c d p q =
    let e = le_key_antisymm (ranking_key k c) (ranking_key k d) p q in
    (ap (λ (x : RankingKey). x.node_id) e, ap (λ (x : RankingKey). x.provider_id) e)

module _ (k : NavigationConstraints) (cap : String) where
  best-Before :
      (cs : List NavigationCandidate) (c d : NavigationCandidate)
      → (evaluate cap cs k).selected ≡ some c
      → Mem d cs
      → IsEligible k d
      → Before k c d
  best-Before cs c d e m fit =
      All-mem (λ x. Π_prop (λ _. Bool-set _ _)) cs d (evaluate-selects_best k cap cs c e).2 m fit

  none_moves :
      (cs ds : List NavigationCandidate)
      → Perm cs ds
      → (evaluate cap cs k).selected ≡ none
      → (evaluate cap ds k).selected ≡ none
  none_moves cs ds p e = (evaluate-none_iff k cap ds).1 (
      All-of_mem ds (λ d m.
        All-mem (λ x. Π_prop (λ _. ⊥_prop)) cs d ((evaluate-none_iff k cap cs).0 e)
          ((Perm.mem_iff p).1 m)))

  -- Two listings of the same candidates, in whatever order, lead to the same choice, provided that
  -- node and provider tell the candidates apart.
  pub evaluate-perm :
      (cs ds : List NavigationCandidate)
      → Perm cs ds
      → IsKeyed cs
      → (evaluate cap cs k).selected ≡ (evaluate cap ds k).selected
  evaluate-perm cs ds p keyed = elim (Option-cases (evaluate cap cs k).selected) [
    | inl e ↦ e ∙ sym (none_moves cs ds p e)
    | inr (c, e) ↦ elim (Option-cases (evaluate cap ds k).selected) [
      | inl f ↦ none_moves ds cs (Perm.symm p) f ∙ sym f
      | inr (d, f) ↦
          let (fit_c, in_c, _) = evaluate-selects_best k cap cs c e in
          let (fit_d, in_d, _) = evaluate-selects_best k cap ds d f in
          let m = (Perm.mem_iff p).1 in_d in
          let (same_node, same_provider) =
            same_key k c d (best-Before cs c d e m fit_d)
              (best-Before ds d c f ((Perm.mem_iff p).0 in_c) fit_c) in
          e ∙ ap some (keyed c d in_c m same_node same_provider) ∙ sym f
    ]
  ]

-- What the selected candidate owes to the preferences, for any eligible `d`.
pub record Prefers (k : NavigationConstraints) (c d : NavigationCandidate) : Type 0 where
  pub node : k.preferred_node ≡ some d.node_id → c.node_id ≡ d.node_id
  pub provider :
      k.preferred_node ≡ none
      → k.preferred_provider ≡ some d.provider_id
      → c.provider_id ≡ d.provider_id
  pub local :
      k.preferred_node ≡ none → k.preferred_provider ≡ none → d.is_local ≡ true → c.is_local ≡ true

Before-Prefers :
    (k : NavigationConstraints) (c d : NavigationCandidate) → Before k c d → Prefers k c d
unfolding le_key ranking_key
Before-Prefers k c d h = record {
  node = λ e. ground arith;
  provider = λ n e. ground arith;
  local = λ n m e. ground arith;
}

-- If an eligible candidate is on the preferred node, the selected one is on that node. With no
-- preferred node, the same holds of the preferred provider; and with no preference at all, the
-- selected candidate is local if any eligible one is.
pub evaluate-Prefers :
    (k : NavigationConstraints) (cap : String) (cs : List NavigationCandidate)
    (c d : NavigationCandidate)
    → (evaluate cap cs k).selected ≡ some c
    → Mem d cs
    → IsEligible k d
    → Prefers k c d
evaluate-Prefers k cap cs c d e m fit = Before-Prefers k c d (best-Before k cap cs c d e m fit)
