-- ===== src/Sync/Versions.antt =====
-- src/shyam/sync/versions.py and `NodeVersionMap` of src/shyam/sync/models.py. The counters are
-- natural numbers. A set of keys is a list without repetitions.
use shyam.Base.{
  ℕ, max, String, Bool, true, false, Option, none, some, List, [], ◌∷◌, if◌then◌else◌, ltb,
}
use shyam.Base.Dict
use shyam.Base.Dict.{Dict}
use shyam.Base.Sets.{union}

abbrev pub NodeVersionMap : Type 0
NodeVersionMap = Dict ℕ

abbrev pub or_zero : Option ℕ → ℕ
or_zero none = 0
or_zero (some v) = v

-- `get_version`
unfoldable pub get_version : NodeVersionMap → String → ℕ
get_version versions node_id = or_zero (Dict.get node_id versions)

unfoldable pub with_update : NodeVersionMap → String → ℕ → NodeVersionMap
with_update versions node_id version = Dict.put node_id version versions

unfoldable pub all_keys : NodeVersionMap → NodeVersionMap → List String
unfolding union
all_keys v w = union (Dict.keys v) (Dict.keys w)

pub data VersionComparison : Type 0 where
  equal ahead behind concurrent : VersionComparison

-- The loop over the keys, from the two flags: `local_has_greater`, `remote_has_greater`.
unfoldable pub scan : NodeVersionMap → NodeVersionMap → List String → Bool → Bool → Bool × Bool
scan local remote [] l r = (l, r)
scan local remote (key ∷ keys) l r =
    let v_local = get_version local key in
    let v_remote = get_version remote key in
    scan local remote keys (if ltb v_remote v_local then true else l)
      (if ltb v_remote v_local then r else if ltb v_local v_remote then true else r)

abbrev pub verdict : Bool × Bool → VersionComparison
verdict (true, true) = concurrent
verdict (false, true) = behind
verdict (true, false) = ahead
verdict (false, false) = equal

unfoldable pub compare_versions : NodeVersionMap → NodeVersionMap → VersionComparison
unfolding all_keys scan
compare_versions local remote = elim (all_keys local remote) [
  | [] ↦ equal
  | key ∷ keys ↦ verdict (scan local remote (key ∷ keys) false false)
]

-- `{node_id: max(…) for node_id in all_keys}`
unfoldable pub maxima : NodeVersionMap → NodeVersionMap → List String → NodeVersionMap
maxima v w [] = []
maxima v w (key ∷ keys) = (key, max (get_version v key) (get_version w key)) ∷ maxima v w keys

unfoldable pub merge_version_maps : NodeVersionMap → NodeVersionMap → NodeVersionMap
unfolding all_keys maxima
merge_version_maps v w = maxima v w (all_keys v w)
