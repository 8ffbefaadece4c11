-- ===== src/Navigation/Partition.antt =====
-- src/shyam/navigation/policy.py: where each candidate ends up in the result of `evaluate`.
use mathlib.Core.List.{Perm, perm_middle}
use mathlib.Core.List.Perm
use shyam.Base.{
  String, ◌≡◌, inl, inr, Option, none, some, List, [], ◌∷◌, ◌++◌, map, arith, All, All-map,
  Option-cases,
}
use shyam.Navigation.Models.{
  NavigationConstraints, NavigationCandidate, RejectedCandidate, NavigationResult,
}
use shyam.Navigation.Eligible.{IsEligible, rejection-none_iff}
use shyam.Navigation.Policy.{filter_candidates, conclude, evaluate}
use shyam.Navigation.Policy.Eligibility.{rejection}
use shyam.Navigation.Policy.Ranking.{sorted}
use shyam.Navigation.Sorting.{IsRanked, sorted-perm, sorted-IsRanked, All-sorted}

abbrev pub to_list {ℓ} : {A : Type ℓ} → Option A → List A
to_list none = []
to_list (some a) = a ∷ []

-- The candidates that may be used, best first.
abbrev pub ranking : NavigationResult → List NavigationCandidate
ranking r = to_list r.selected ++ r.alternatives

abbrev pub refused : NavigationResult → List NavigationCandidate
refused r = map (λ x. x.candidate) r.rejected

abbrev pub HasReason : NavigationConstraints → RejectedCandidate → Type 0
HasReason k r = rejection k r.candidate ≡ some r.reason

All-unit : (cs : List NavigationCandidate) → All (λ c. Unit {0}) cs
All-unit [] = tt
All-unit (c ∷ cs) = (tt, All-unit cs)

module _ (k : NavigationConstraints) where
  filter_keep :
      (c : NavigationCandidate) (cs : List NavigationCandidate)
      → rejection k c ≡ none
      → filter_candidates k (c ∷ cs) ≡ (c ∷ (filter_candidates k cs).0, (filter_candidates k cs).1)
  unfolding filter_candidates
  filter_keep c cs e = ground arith

  filter_reject :
      (c : NavigationCandidate) (cs : List NavigationCandidate) (why : String)
      → rejection k c ≡ some why
      → filter_candidates k (c ∷ cs) ≡ (
        (filter_candidates k cs).0,
        record { candidate = c; reason = why } ∷ (filter_candidates k cs).1,
      )
  unfolding filter_candidates
  filter_reject c cs why e = ground arith

  -- What holds of every split of a list by `filter_candidates`, by induction.
  filter_induction :
      (P : List NavigationCandidate → List NavigationCandidate → List RejectedCandidate → Type 0)
      → P [] [] []
      → ((c : NavigationCandidate) (cs good : List NavigationCandidate)
            (bad : List RejectedCandidate)
          → rejection k c ≡ none
          → P cs good bad
          → P (c ∷ cs) (c ∷ good) bad)
      → ((c : NavigationCandidate) (cs good : List NavigationCandidate)
            (bad : List RejectedCandidate) (why : String)
          → rejection k c ≡ some why
          → P cs good bad
          → P (c ∷ cs) good (record { candidate = c; reason = why } ∷ bad))
      → (cs : List NavigationCandidate) → P cs (filter_candidates k cs).0 (filter_candidates k cs).1
  filter_induction P base kept rejected [] = unfold filter_candidates in base
  filter_induction P base kept rejected (c ∷ cs) =
      let ih = filter_induction P base kept rejected cs in
      elim (Option-cases (rejection k c)) [
        | inl e ↦ rw (filter_keep c cs e) (kept c cs _ _ e ih)
        | inr (why, e) ↦ rw (filter_reject c cs why e) (rejected c cs _ _ why e ih)
      ]

  filter-perm :
      (cs : List NavigationCandidate)
      → Perm ((filter_candidates k cs).0 ++ map (λ x. x.candidate) (filter_candidates k cs).1) cs
  filter-perm =
      filter_induction (λ cs good bad. Perm (good ++ map (λ x. x.candidate) bad) cs) (Perm.refl [])
        (λ c cs good bad e ih. Perm.cons c ih)
        (λ c cs good bad why e ih. Perm.trans (perm_middle good _) (Perm.cons c ih))

  filter-reasons : (cs : List NavigationCandidate) → All (HasReason k) (filter_candidates k cs).1
  filter-reasons =
      filter_induction (λ cs good bad. All (HasReason k) bad) tt (λ c cs good bad e ih. ih)
        (λ c cs good bad why e ih. (e, ih))

  pub filter-All :
      (P : NavigationCandidate → Type 0) (cs : List NavigationCandidate)
      → All P cs
      → All (λ c. (rejection k c ≡ none) × P c) (filter_candidates k cs).0
  filter-All P =
      filter_induction (λ cs good bad. All P cs → All (λ c. (rejection k c ≡ none) × P c) good)
        (λ h. tt) (λ c cs good bad e ih h. ((e, h.0), ih h.1)) (λ c cs good bad why e ih h. ih h.1)

  pub All-of_filter :
      (P : NavigationCandidate → Type 0) (cs : List NavigationCandidate)
      → All P (filter_candidates k cs).0
      → All (λ c. rejection k c ≡ none → P c) cs
  All-of_filter P =
      filter_induction (λ cs good bad. All P good → All (λ c. rejection k c ≡ none → P c) cs)
        (λ h. tt) (λ c cs good bad e ih h. (λ _. h.0, ih h.1))
        (λ c cs good bad why e ih h. (λ f. cc, ih h))

  -- What `evaluate` returns, in the words of its two stages.
  pub ranking-evaluate :
      (cap : String) (cs : List NavigationCandidate)
      → ranking (evaluate cap cs k) ≡ sorted k (filter_candidates k cs).0
  unfolding evaluate conclude
  ranking-evaluate cap cs = ground arith

  refused-evaluate :
      (cap : String) (cs : List NavigationCandidate)
      → (evaluate cap cs k).rejected ≡ (filter_candidates k cs).1
  unfolding evaluate conclude
  refused-evaluate cap cs = ground arith

  -- The ranking and the refused candidates together are the candidates, each as often as it was
  -- given; the ranking is in the order of the keys; every refused candidate carries the reason of the
  -- first check that it fails, and no candidate of the ranking fails a check.
  pub evaluate-partition :
      (cap : String) (cs : List NavigationCandidate)
      → let r = evaluate cap cs k in
        Perm (ranking r ++ refused r) cs
        × IsRanked k (ranking r)
        × All (IsEligible k) (ranking r)
        × All (HasReason k) r.rejected
  evaluate-partition cap cs =
      rw (ranking-evaluate cap cs, refused-evaluate cap cs)
        (
          Perm.trans (Perm.append_right _ (sorted-perm k _)) (filter-perm cs),
          sorted-IsRanked k _,
          All-sorted k (IsEligible k) _ (
              All-map (λ c h. (rejection-none_iff k c).0 h.0) _
                (filter-All (λ c. Unit) cs (All-unit cs))),
          filter-reasons cs,
        )
