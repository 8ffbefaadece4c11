-- ===== src/Sync/Divergence.antt =====
-- src/shyam/sync/service.py: the availability facts after such an exchange.
use shyam.Base.{ℕ, String, false, ◌≡◌, refl, ◌∙◌, ap, some, [], ◌∷◌, str_discrete, arith}
use shyam.Base.Dict
use shyam.Base.Dict.{Dict, get-put}
use shyam.Sync.Authenticator.{Crypto}
use shyam.Sync.Causality.{compare_versions-Means}
use shyam.Sync.Convergence.{receive, receive-merge, concurrent_comm, is_equal, version-receive}
use shyam.Sync.Ingest.{merge_envelope}
use shyam.Sync.Service.{SyncState, merge_availability, create_sync_envelope}
use shyam.Base.Sets.{IsDict, elem}
use shyam.Sync.Versions.{concurrent, equal, compare_versions}

get-untouched :
    (n : String) (xs d : Dict String)
    → elem n (Dict.keys xs) ≡ false
    → Dict.get n (merge_availability xs d) ≡ Dict.get n d
unfolding merge_availability elem
get-untouched n [] d h = refl
get-untouched n ((m, w) ∷ xs) d h =
    ground (arith, get-untouched n xs (Dict.put m w d), get-put n m w d)

-- A status of the payload replaces the one that was known.
get-merge_availability :
    (n : String) (xs d : Dict String) (v : String)
    → IsDict xs
    → Dict.get n xs ≡ some v
    → Dict.get n (merge_availability xs d) ≡ some v
unfolding merge_availability Dict.get
get-merge_availability n [] d v h e = cc
get-merge_availability n ((m, w) ∷ xs) d v h e = elim (str_discrete m n) [
  | yes p ↦ ground (arith, get-untouched n xs (Dict.put m w d), get-put n m w d, h.0)
  | no q ↦ get-merge_availability n xs (Dict.put m w d) v h.1 (ground arith)
]

get-receive :
    (crypto : Crypto) (m : String) (now : ℕ) (r s : SyncState) (n v : String)
    → elem m s.processed_message_ids ≡ false
    → compare_versions s.version_map r.version_map ≡ concurrent
    → IsDict r.synced_availability
    → Dict.get n r.synced_availability ≡ some v
    → Dict.get n (receive crypto m now r s).synced_availability ≡ some v
unfolding create_sync_envelope merge_envelope
get-receive crypto m now r s n v um apart d e =
    ap (λ (x : SyncState). Dict.get n x.synced_availability)
      (receive-merge crypto m now r s um apart)
    ∙ get-merge_availability n r.synced_availability s.synced_availability v d e

-- If two nodes with concurrent version vectors, whose availability maps have each key once, know a
-- status of the same node, each ingesting an unseen envelope of the other swaps the two statuses,
-- and the version vectors then compare as equal.
pub exchange-swaps :
    (crypto : Crypto) (m m' : String) (now : ℕ) (r s : SyncState) (n v w : String)
    → elem m s.processed_message_ids ≡ false
    → elem m' r.processed_message_ids ≡ false
    → compare_versions s.version_map r.version_map ≡ concurrent
    → IsDict s.synced_availability
    → IsDict r.synced_availability
    → Dict.get n s.synced_availability ≡ some v
    → Dict.get n r.synced_availability ≡ some w
    → let s' = receive crypto m now r s in
      let r' = receive crypto m' now s r in
      (Dict.get n s'.synced_availability ≡ some w)
      × (Dict.get n r'.synced_availability ≡ some v)
      × (compare_versions s'.version_map r'.version_map ≡ equal)
exchange-swaps crypto m m' now r s n v w um um' apart ds dr e f =
    let apart' = concurrent_comm s.version_map r.version_map apart in
    let s' = receive crypto m now r s in
    let r' = receive crypto m' now s r in
    (
      get-receive crypto m now r s n w um apart dr f,
      get-receive crypto m' now s r n v um' apart' ds e,
      is_equal (compare_versions s'.version_map r'.version_map) s'.version_map r'.version_map
          (compare_versions-Means s'.version_map r'.version_map)
          (λ k. omega (
            arith,
            version-receive crypto m now r s um apart k,
            version-receive crypto m' now s r um' apart' k,
          ))
          (λ k. omega (
            arith,
            version-receive crypto m now r s um apart k,
            version-receive crypto m' now s r um' apart' k,
          )),
    )
