-- ===== src/Sync/Causality.antt =====
-- src/shyam/sync/versions.py: the pointwise order of version vectors, against the comparison and merge.
use shyam.Base.{
  ◌≤◌, max, String, Bool, true, false, ◌||◌, ◌≡◌, ◌↔◌, sym, subst, refl, none, some, List, [], ◌∷◌,
  inl, inr, if◌then◌else◌, ltb, any, arith, Bool-cases,
}
use shyam.Base.Dict
use shyam.Base.Dict.{Dict}
use shyam.Base.Sets.{elem, union}
use shyam.Sync.Versions.{
  NodeVersionMap, get_version, all_keys, VersionComparison, equal, ahead, behind, concurrent, scan,
  verdict, compare_versions, maxima, merge_version_maps,
}

-- `v` knows nothing that `w` does not.
abbrev pub Leq : NodeVersionMap → NodeVersionMap → Type 0
Leq v w = (k : String) → get_version v k ≤ get_version w k

elem-union : (k : String) (xs ys : List String) → elem k (union xs ys) ≡ elem k xs || elem k ys
unfolding elem union
elem-union k [] ys = refl
elem-union k (x ∷ xs) ys = ground (arith, elem-union k xs ys)

get-none : (k : String) (v : NodeVersionMap) → elem k (Dict.keys v) ≡ false → Dict.get k v ≡ none
unfolding elem Dict.get
get-none k [] h = refl
get-none k ((j, n) ∷ v) h = ground (arith, get-none k v)

unseen :
    (k : String) (v w : NodeVersionMap)
    → elem k (all_keys v w) ≡ false
    → (get_version v k ≡ 0) × (get_version w k ≡ 0)
unfolding all_keys get_version
unseen k v w h =
    ground (arith, elem-union k (Dict.keys v) (Dict.keys w), get-none k v, get-none k w)

any_at :
    (p : String → Bool) (k : String) (xs : List String)
    → any p xs ≡ false
    → elem k xs ≡ true
    → p k ≡ false
unfolding elem
any_at p k [] h e = cc
any_at p k (x ∷ xs) h e = ground (arith, any_at p k xs)

any-witness : (p : String → Bool) (xs : List String) → any p xs ≡ true → (k : String) × (p k ≡ true)
any-witness p [] h = cc
any-witness p (x ∷ xs) h = elim (Bool-cases (p x)) [
  | inl e ↦ (x, e)
  | inr e ↦ any-witness p xs (ground arith)
]

-- Some counter of `v` is greater than that of `w`.
abbrev greater : NodeVersionMap → NodeVersionMap → List String → Bool
greater v w keys = any (λ k. ltb (get_version w k) (get_version v k)) keys

greater-Leq :
    (v w : NodeVersionMap) (keys : List String)
    → ((k : String) → elem k keys ≡ false → (get_version v k ≡ 0) × (get_version w k ≡ 0))
    → greater v w keys ≡ false
    → Leq v w
greater-Leq v w keys missing h k = elim (Bool-cases (elem k keys)) [
  | inl e ↦ ground (arith, any_at (λ j. ltb (get_version w j) (get_version v j)) k keys h e)
  | inr e ↦ omega (arith, missing k e)
]

greater-not_Leq : (v w : NodeVersionMap) (keys : List String) → greater v w keys ≡ true → ¬ Leq v w
greater-not_Leq v w keys h le =
    let (k, e) = any-witness (λ j. ltb (get_version w j) (get_version v j)) keys h in
    ground (arith, le k)

scan-greater :
    (v w : NodeVersionMap) (keys : List String) (l r : Bool)
    → scan v w keys l r ≡ (greater v w keys || l, greater w v keys || r)
unfolding scan
scan-greater v w [] l r = refl
scan-greater v w (k ∷ keys) l r =
    ground
      (arith, scan-greater v w keys true r, scan-greater v w keys l true, scan-greater v w keys l r)

verdict-compare :
    (v w : NodeVersionMap)
    → compare_versions v w ≡ verdict (greater v w (all_keys v w), greater w v (all_keys v w))
unfolding compare_versions
verdict-compare v w = go (all_keys v w)
  where
    go :
        (keys : List String)
        → (elim keys [ [] ↦ equal | key ∷ rest ↦ verdict (scan v w (key ∷ rest) false false) ])
          ≡ verdict (greater v w keys, greater w v keys)
    go [] = refl
    go (k ∷ keys) = ground (arith, scan-greater v w (k ∷ keys) false false)

-- Each flag of the scan says whether one vector exceeds the other somewhere.
flags :
    (v w : NodeVersionMap)
    → ((greater v w (all_keys v w) ≡ false) ↔ Leq v w)
      × ((greater w v (all_keys v w) ≡ false) ↔ Leq w v)
flags v w =
    (decide v w (λ k. unseen k v w), decide w v (λ k e. let (a, b) = unseen k v w e in (b, a)))
  where
    decide :
        (x y : NodeVersionMap)
        → ((k : String)
            → elem k (all_keys v w) ≡ false
            → (get_version x k ≡ 0) × (get_version y k ≡ 0))
        → (greater x y (all_keys v w) ≡ false) ↔ Leq x y
    decide x y missing = (
      greater-Leq x y (all_keys v w) missing,
      λ le. elim (Bool-cases (greater x y (all_keys v w))) [
        | inl e ↦ absurd (greater-not_Leq x y (all_keys v w) e le)
        | inr e ↦ e
      ],
    )

-- The order that the four verdicts stand for.
abbrev pub Means : VersionComparison → NodeVersionMap → NodeVersionMap → Type 0
Means equal v w = Leq v w × Leq w v
Means behind v w = Leq v w × ¬ Leq w v
Means ahead v w = ¬ Leq v w × Leq w v
Means concurrent v w = ¬ Leq v w × ¬ Leq w v

verdict-Means :
    (v w : NodeVersionMap) (l r : Bool)
    → ((l ≡ false) ↔ Leq v w)
    → ((r ≡ false) ↔ Leq w v)
    → Means (verdict (l, r)) v w
verdict-Means v w true true f g = (λ h. cc (f.1 h), λ h. cc (g.1 h))
verdict-Means v w false true f g = (f.0 refl, λ h. cc (g.1 h))
verdict-Means v w true false f g = (λ h. cc (f.1 h), g.0 refl)
verdict-Means v w false false f g = (f.0 refl, g.0 refl)

-- The verdict of `compare_versions` is the true relation of the two vectors, whatever nodes they
-- name: equal, behind, ahead or concurrent in the order of the counters, a missing one being 0.
pub compare_versions-Means : (v w : NodeVersionMap) → Means (compare_versions v w) v w
compare_versions-Means v w =
    subst (λ c. Means c v w) (sym (verdict-compare v w))
      (verdict-Means v w _ _ (flags v w).0 (flags v w).1)

get-maxima :
    (k : String) (v w : NodeVersionMap) (keys : List String)
    → Dict.get k (maxima v w keys)
      ≡ (if elem k keys then some (max (get_version v k) (get_version w k)) else none)
unfolding maxima elem Dict.get
get-maxima k v w [] = refl
get-maxima k v w (x ∷ keys) = ground (arith, get-maxima k v w keys)

-- The counter of every node in the merge is the larger of its two counters.
pub get_version-merge :
    (v w : NodeVersionMap) (k : String)
    → get_version (merge_version_maps v w) k ≡ max (get_version v k) (get_version w k)
unfolding merge_version_maps get_version
get_version-merge v w k = ground (arith, get-maxima k v w (all_keys v w), unseen k v w)

-- The merge is the least vector above both.
merge-least :
    (v w : NodeVersionMap)
    → Leq v (merge_version_maps v w)
      × Leq w (merge_version_maps v w)
      × ((u : NodeVersionMap) → Leq v u → Leq w u → Leq (merge_version_maps v w) u)
merge-least v w = (
  λ k. omega (arith, get_version-merge v w k),
  λ k. omega (arith, get_version-merge v w k),
  λ u p q k. omega (arith, get_version-merge v w k, p k, q k),
)
