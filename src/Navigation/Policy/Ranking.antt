-- ===== src/Navigation/Policy/Ranking.antt =====
-- Stage 2 of src/shyam/navigation/policy.py: the ranking key, Python's order on key tuples, and the
-- stable `sorted`.
use shyam.Base.{
  ℕ, String, Bool, true, some, List, [], ◌∷◌, ite, if◌then◌else◌, str_discrete, opt_discrete, leb,
  ◌≡◌, ◌⊎◌, arith,
}
use shyam.Base.Text.{le_str, le_str_total, le_str_trans, le_str_antisymm}
use native.Mathlib.Decide.{ℕ_discrete}
use shyam.Navigation.Models.{NavigationConstraints, NavigationCandidate}

pub record RankingKey : Type 0 where
  pub node_pref : ℕ
  pub prov_pref : ℕ
  pub locality_pref : ℕ
  pub node_id : String
  pub provider_id : String

unfoldable pub ranking_key : NavigationConstraints → NavigationCandidate → RankingKey
ranking_key k c = record {
  node_pref = ite (opt_discrete k.preferred_node (some c.node_id)) 0 1;
  prov_pref = ite (opt_discrete k.preferred_provider (some c.provider_id)) 0 1;
  locality_pref = if c.is_local then 0 else 1;
  node_id = c.node_id;
  provider_id = c.provider_id;
}

-- `a <= b` on tuples: the first items that differ decide.
unfoldable pub le_key : RankingKey → RankingKey → Bool
le_key a b =
    ite (ℕ_discrete a.node_pref b.node_pref)
      (ite (ℕ_discrete a.prov_pref b.prov_pref)
        (ite (ℕ_discrete a.locality_pref b.locality_pref)
          (ite (str_discrete a.node_id b.node_id) (le_str a.provider_id b.provider_id)
            (le_str a.node_id b.node_id))
          (leb a.locality_pref b.locality_pref))
        (leb a.prov_pref b.prov_pref))
      (leb a.node_pref b.node_pref)

pub le_key_total : (a b : RankingKey) → (le_key a b ≡ true) ⊎ (le_key b a ≡ true)
unfolding le_key
le_key_total a b =
    ground (arith, le_str_total a.provider_id b.provider_id, le_str_total a.node_id b.node_id)

pub le_key_trans : (a b c : RankingKey) → le_key a b ≡ true → le_key b c ≡ true → le_key a c ≡ true
unfolding le_key
le_key_trans a b c h k = ground (
  arith,
  le_str_trans a.provider_id b.provider_id c.provider_id,
  le_str_trans a.node_id b.node_id c.node_id,
  le_str_antisymm a.node_id b.node_id,
)

pub le_key_antisymm : (a b : RankingKey) → le_key a b ≡ true → le_key b a ≡ true → a ≡ b
unfolding le_key
le_key_antisymm a b h k =
    ground (arith, le_str_antisymm a.provider_id b.provider_id, le_str_antisymm a.node_id b.node_id)

-- `sorted` is stable: an item goes before the first one that its key does not exceed, and the list
-- is built from its end.
unfoldable pub insert :
    NavigationConstraints
    → NavigationCandidate
    → List NavigationCandidate
    → List NavigationCandidate
unfolding ranking_key
insert k c [] = c ∷ []
insert k c (d ∷ ds) =
    let rest = insert k c ds in
    if le_key (ranking_key k c) (ranking_key k d) then c ∷ d ∷ ds else d ∷ rest

unfoldable pub sorted : NavigationConstraints → List NavigationCandidate → List NavigationCandidate
unfolding insert
sorted k [] = []
sorted k (c ∷ cs) = insert k c (sorted k cs)
