-- ===== src/Navigation/Sorting.antt =====
-- src/shyam/navigation/policy.py: lemmas on `sorted` and the order of the ranking keys.
use mathlib.Core.List.{Perm}
use mathlib.Core.List.Perm
use shyam.Base.{Bool-cases, ◌≡◌, inl, inr, true, List, [], ◌∷◌, arith, All, All-map}
use shyam.Navigation.Models.{NavigationConstraints, NavigationCandidate}
use shyam.Navigation.Policy.Ranking.{
  ranking_key, le_key, le_key_total, le_key_trans, insert, sorted,
}

-- `c` ranks at least as high as `d`.
abbrev pub Before : NavigationConstraints → NavigationCandidate → NavigationCandidate → Type 0
Before k c d = le_key (ranking_key k c) (ranking_key k d) ≡ true

abbrev pub IsRanked : NavigationConstraints → List NavigationCandidate → Type 0
IsRanked k [] = Unit
IsRanked k (c ∷ cs) = All (Before k c) cs × IsRanked k cs

module _ (k : NavigationConstraints) where
  insert-perm :
      (c : NavigationCandidate) (ds : List NavigationCandidate) → Perm (insert k c ds) (c ∷ ds)
  unfolding insert
  insert-perm c [] = Perm.refl (c ∷ [])
  insert-perm c (d ∷ ds) = elim (Bool-cases (le_key (ranking_key k c) (ranking_key k d))) [
    | inl first ↦ rw first (Perm.refl (c ∷ d ∷ ds))
    | inr after ↦ rw after (Perm.trans (Perm.cons d (insert-perm c ds)) (Perm.swap c d ds))
  ]

  pub sorted-perm : (cs : List NavigationCandidate) → Perm (sorted k cs) cs
  unfolding sorted
  sorted-perm [] = Perm.refl []
  sorted-perm (c ∷ cs) = Perm.trans (insert-perm c (sorted k cs)) (Perm.cons c (sorted-perm cs))

  All-insert :
      (P : NavigationCandidate → Type 0) (c : NavigationCandidate) (ds : List NavigationCandidate)
      → P c
      → All P ds
      → All P (insert k c ds)
  unfolding insert
  All-insert P c [] p h = (p, tt)
  All-insert P c (d ∷ ds) p h = elim (Bool-cases (le_key (ranking_key k c) (ranking_key k d))) [
    | inl first ↦ rw first (p, h)
    | inr after ↦ rw after (h.0, All-insert P c ds p h.1)
  ]

  pub All-sorted :
      (P : NavigationCandidate → Type 0) (cs : List NavigationCandidate)
      → All P cs
      → All P (sorted k cs)
  unfolding sorted
  All-sorted P [] h = tt
  All-sorted P (c ∷ cs) h = All-insert P c (sorted k cs) h.0 (All-sorted P cs h.1)

  All-of_insert :
      (P : NavigationCandidate → Type 0) (c : NavigationCandidate) (ds : List NavigationCandidate)
      → All P (insert k c ds)
      → P c × All P ds
  unfolding insert
  All-of_insert P c [] h = h
  All-of_insert P c (d ∷ ds) h = elim (Bool-cases (le_key (ranking_key k c) (ranking_key k d))) [
    | inl first ↦ rw first at h
    | inr after ↦
        let (pd, rest) : P d × All P (insert k c ds) = rw after at h in
        let (pc, tail) = All-of_insert P c ds rest in (pc, (pd, tail))
  ]

  pub All-of_sorted :
      (P : NavigationCandidate → Type 0) (cs : List NavigationCandidate)
      → All P (sorted k cs)
      → All P cs
  unfolding sorted
  All-of_sorted P [] h = tt
  All-of_sorted P (c ∷ cs) h =
      let (pc, rest) = All-of_insert P c (sorted k cs) h in (pc, All-of_sorted P cs rest)

  insert-IsRanked :
      (c : NavigationCandidate) (ds : List NavigationCandidate)
      → IsRanked k ds
      → IsRanked k (insert k c ds)
  unfolding insert
  insert-IsRanked c [] h = (tt, tt)
  insert-IsRanked c (d ∷ ds) h = elim (Bool-cases (le_key (ranking_key k c) (ranking_key k d))) [
    | inl first ↦
        let behind = λ (e : NavigationCandidate) (q : Before k d e).
          le_key_trans (ranking_key k c) (ranking_key k d) (ranking_key k e) first q in
        rw first ((first, All-map behind ds h.0), h)
    | inr after ↦ rw after (
      All-insert (Before k d) c ds
          (ground (arith, le_key_total (ranking_key k c) (ranking_key k d))) h.0,
      insert-IsRanked c ds h.1,
    )
  ]

  pub sorted-IsRanked : (cs : List NavigationCandidate) → IsRanked k (sorted k cs)
  unfolding sorted
  sorted-IsRanked [] = tt
  sorted-IsRanked (c ∷ cs) = insert-IsRanked c (sorted k cs) (sorted-IsRanked cs)
