-- ===== src/Sync/Convergence.antt =====
-- src/shyam/sync/service.py: two nodes with concurrent changes that exchange their envelopes.
use mathlib.Core.List.{map}
use shyam.Base.{
  ℕ, max, String, Bool, true, false, ◌||◌, ◌≡◌, refl, ◌∙◌, sym, ap, subst, List, [], ◌∷◌, arith,
}
use shyam.Base.Dict
use shyam.Base.Dict.{Dict, get-put}
use shyam.Sync.Authenticator.{Crypto}
use shyam.Sync.Causality.{Leq, Means, compare_versions-Means, get_version-merge}
use shyam.Sync.Ingest.{merge_envelope, ingest}
use shyam.Sync.Models.{SyncEnvelope}
use shyam.Sync.Progress.{knows, knows-merge, offers}
use shyam.Sync.Service.{SyncState, insert, sorted, create_sync_envelope}
use shyam.Base.Sets.{IsDict, elem}
use shyam.Sync.Versions.{
  NodeVersionMap, get_version, VersionComparison, equal, ahead, behind, concurrent,
  compare_versions,
}

-- The state of `s` after the envelope of `r` with the message id `m`.
abbrev pub receive : Crypto → String → ℕ → SyncState → SyncState → SyncState
receive crypto m now r s = (ingest (create_sync_envelope crypto "sync_response" m now r) s).0

is_concurrent :
    (c : VersionComparison) (v w : NodeVersionMap)
    → Means c v w
    → ¬ Leq v w
    → ¬ Leq w v
    → c ≡ concurrent
is_concurrent equal v w m p q = absurd (p m.0)
is_concurrent ahead v w m p q = absurd (q m.1)
is_concurrent behind v w m p q = absurd (p m.0)
is_concurrent concurrent v w m p q = refl

pub is_equal :
    (c : VersionComparison) (v w : NodeVersionMap) → Means c v w → Leq v w → Leq w v → c ≡ equal
is_equal equal v w m p q = refl
is_equal ahead v w m p q = absurd (m.0 p)
is_equal behind v w m p q = absurd (m.1 q)
is_equal concurrent v w m p q = absurd (m.0 p)

pub concurrent_comm :
    (v w : NodeVersionMap) → compare_versions v w ≡ concurrent → compare_versions w v ≡ concurrent
concurrent_comm v w h =
    let (p, q) = subst (λ c. Means c v w) h (compare_versions-Means v w) in
    is_concurrent (compare_versions w v) w v (compare_versions-Means w v) q p

elem-insert : (c x : String) (ys : List String) → elem c (insert x ys) ≡ elem c (x ∷ ys)
unfolding insert elem
elem-insert c x [] = refl
elem-insert c x (y ∷ ys) = ground (arith, elem-insert c x ys)

elem-sorted : (c : String) (xs : List String) → elem c (sorted xs) ≡ elem c xs
unfolding sorted elem
elem-sorted c [] = refl
elem-sorted c (x ∷ xs) = ground (arith, elem-insert c x (sorted xs), elem-sorted c xs)

-- The capabilities as the payload of an envelope lists them.
abbrev listed : Dict (List String) → Dict (List String)
listed d = map (λ e. (e.0, sorted e.1)) d

offers-missing :
    (d : Dict (List String)) (n c : String)
    → elem n (Dict.keys d) ≡ false
    → offers (listed d) n c ≡ false
unfolding offers elem
offers-missing [] n c h = refl
offers-missing ((m, caps) ∷ d) n c h = ground (arith, offers-missing d n c)

offers-listed :
    (d : Dict (List String)) (n c : String) → IsDict d → offers (listed d) n c ≡ knows d n c
unfolding offers Dict.get
offers-listed [] n c h = unfold elem in refl
offers-listed ((m, caps) ∷ d) n c h =
    ground (arith, elem-sorted c caps, offers-listed d n c h.1, offers-missing d n c, h.0)

ingest-concurrent :
    (e : SyncEnvelope) (s : SyncState)
    → elem e.message_id s.processed_message_ids ≡ false
    → compare_versions s.version_map e.version_map ≡ concurrent
    → (ingest e s).0 ≡ merge_envelope e s
unfolding ingest
ingest-concurrent e s new c = rw (new, c) refl

-- What two nodes agree on.
pub record Agree (s r : SyncState) : Type 0 where
  pub versions : (k : String) → get_version s.version_map k ≡ get_version r.version_map k
  pub capabilities :
      (n c : String) → knows s.synced_capabilities n c ≡ knows r.synced_capabilities n c

or_comm : (a b : Bool) → a || b ≡ b || a
or_comm true true = refl
or_comm true false = refl
or_comm false true = refl
or_comm false false = refl

module _ (crypto : Crypto) (m : String) (now : ℕ) (r s : SyncState)
    (unseen : elem m s.processed_message_ids ≡ false)
    (apart : compare_versions s.version_map r.version_map ≡ concurrent) where
  pub receive-merge :
      receive crypto m now r s
      ≡ merge_envelope (create_sync_envelope crypto "sync_response" m now r) s
  unfolding create_sync_envelope
  receive-merge =
      ingest-concurrent (create_sync_envelope crypto "sync_response" m now r) s unseen apart

  pub version-receive :
      (k : String)
      → get_version (receive crypto m now r s).version_map k
        ≡ max (get_version s.version_map k) (get_version r.version_map k)
  unfolding create_sync_envelope merge_envelope
  version-receive k =
      ap (λ (x : SyncState). get_version x.version_map k) receive-merge
      ∙ get_version-merge s.version_map r.version_map k

  knows-receive :
      (n c : String)
      → IsDict r.synced_capabilities
      → knows (receive crypto m now r s).synced_capabilities n c
        ≡ knows s.synced_capabilities n c || knows r.synced_capabilities n c
  unfolding create_sync_envelope merge_envelope
  knows-receive n c d =
      ap (λ (x : SyncState). knows x.synced_capabilities n c) receive-merge
      ∙ knows-merge n c (listed r.synced_capabilities) s.synced_capabilities
      ∙ ap (λ b. knows s.synced_capabilities n c || b) (offers-listed r.synced_capabilities n c d)

-- Two nodes with concurrent version vectors, whose capability maps have each key once, that each
-- ingest an unseen envelope which the other created beforehand end with the same counter for every
-- node and the same known capabilities.
pub exchange-Agree :
    (crypto : Crypto) (m n : String) (now : ℕ) (r s : SyncState)
    → elem m s.processed_message_ids ≡ false
    → elem n r.processed_message_ids ≡ false
    → compare_versions s.version_map r.version_map ≡ concurrent
    → IsDict s.synced_capabilities
    → IsDict r.synced_capabilities
    → Agree (receive crypto m now r s) (receive crypto n now s r)
exchange-Agree crypto m n now r s um un apart ds dr =
    let apart' = concurrent_comm s.version_map r.version_map apart in
    record {
      versions = λ k. omega (
        arith,
        version-receive crypto m now r s um apart k,
        version-receive crypto n now s r un apart' k,
      );
      capabilities = λ x c.
          knows-receive crypto m now r s um apart x c dr
          ∙ or_comm (knows s.synced_capabilities x c) (knows r.synced_capabilities x c)
          ∙ sym (knows-receive crypto n now s r un apart' x c ds);
    }
