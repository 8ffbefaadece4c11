-- ===== src/Sync/Progress.antt =====
-- src/shyam/sync/service.py: what a service knows before and after it processes envelopes.
use shyam.Base.{
  ℕ, zero, suc, ◌≤◌, ◌<◌, ◌-◌, String, Bool, true, false, ◌||◌, ◌≡◌, refl, inl, inr, ◌∙◌, sym,
  subst, List, [], ◌∷◌, ◌++◌, ite, str_discrete, arith, Bool-cases, length, length-append,
}
use shyam.Base.Dict
use shyam.Base.Dict.{Dict, get-put}
use shyam.Sync.Authenticator.{Crypto, Verdict, authenticate_incoming}
use shyam.Sync.Causality.{Leq, get_version-merge}
use shyam.Sync.Ingest.{
  drop, remember, mark_processed, merge_envelope, on_comparison, on_verdict, ingest,
  process_incoming_envelope,
}
use shyam.Sync.Gate.{process-own, process-other}
use shyam.Sync.Models.{SyncEnvelope}
use shyam.Sync.Service.{SyncState, add_all, or_empty, merge_capabilities}
use shyam.Base.Sets.{elem}
use shyam.Sync.Versions.{VersionComparison, equal, ahead, behind, concurrent, compare_versions}
use shyam.Trust.Service.{TrustState, Reply, ok, raised}

-- Node `n` is known to have capability `c`.
abbrev pub knows : Dict (List String) → String → String → Bool
knows d n c = elem c (or_empty (Dict.get n d))

elem-append : (x : String) (xs ys : List String) → elem x (xs ++ ys) ≡ elem x xs || elem x ys
unfolding elem
elem-append x [] ys = refl
elem-append x (z ∷ xs) ys = ground (arith, elem-append x xs ys)

pub elem-add_all :
    (c : String) (ys xs : List String) → elem c (add_all ys xs) ≡ elem c xs || elem c ys
unfolding add_all elem
elem-add_all c [] xs = ground arith
elem-add_all c (y ∷ ys) xs =
    ground
      (arith, elem-add_all c ys xs, elem-add_all c ys (xs ++ y ∷ []), elem-append c xs (y ∷ []))

-- Some entry for `n` lists `c`.
unfoldable pub offers : Dict (List String) → String → String → Bool
offers [] n c = false
offers ((m, caps) ∷ d) n c = ite (str_discrete m n) (elem c caps || offers d n c) (offers d n c)

-- After the merge a capability is known exactly if it was known before or is in the payload.
pub knows-merge :
    (n c : String) (xs d : Dict (List String))
    → knows (merge_capabilities xs d) n c ≡ knows d n c || offers xs n c
unfolding merge_capabilities offers
knows-merge n c [] d = ground arith
knows-merge n c ((m, caps) ∷ xs) d = ground (
  arith,
  knows-merge n c xs (Dict.put m (add_all caps (or_empty (Dict.get m d))) d),
  get-put n m (add_all caps (or_empty (Dict.get m d))) d,
  elem-add_all c caps (or_empty (Dict.get m d)),
)

pub record Grows (s s' : SyncState) : Type 0 where
  pub versions : Leq s.version_map s'.version_map
  pub capabilities :
      (n c : String)
      → knows s.synced_capabilities n c ≡ true
      → knows s'.synced_capabilities n c ≡ true

Grows-refl : (s : SyncState) → Grows s s
Grows-refl s = record { versions = λ k. omega arith; capabilities = λ n c h. h }

merge_envelope-Grows : (e : SyncEnvelope) (s : SyncState) → Grows s (merge_envelope e s)
unfolding merge_envelope
merge_envelope-Grows e s = record {
  versions = λ k. omega (arith, get_version-merge s.version_map e.version_map k);
  capabilities =
      λ n c h. ground (arith, knows-merge n c e.payload.node_capabilities s.synced_capabilities);
}

on_comparison-Grows :
    (c : VersionComparison) (e : SyncEnvelope) (s : SyncState) → Grows s (on_comparison c e s).0
unfolding on_comparison mark_processed
on_comparison-Grows equal e s = record { versions = λ k. omega arith; capabilities = λ n c h. h }
on_comparison-Grows ahead e s = record { versions = λ k. omega arith; capabilities = λ n c h. h }
on_comparison-Grows behind e s = merge_envelope-Grows e s
on_comparison-Grows concurrent e s = merge_envelope-Grows e s

ingest-Grows : (e : SyncEnvelope) (s : SyncState) → Grows s (ingest e s).0
unfolding ingest
ingest-Grows e s = elim (Bool-cases (elem e.message_id s.processed_message_ids)) [
  | inl seen ↦ rw seen (Grows-refl s)
  | inr new ↦ rw new (on_comparison-Grows (compare_versions s.version_map e.version_map) e s)
]

on_verdict-Grows :
    (e : SyncEnvelope) (s : SyncState) (r : Reply Verdict) → Grows s (on_verdict e s r).0
unfolding on_verdict
on_verdict-Grows e s (ok (true, o, d) events) = ingest-Grows e s
on_verdict-Grows e s (ok (false, o, d) events) = Grows-refl s
on_verdict-Grows e s (raised f) = Grows-refl s

-- Whatever envelope arrives, no counter of the version vector falls and no known capability is
-- forgotten.
pub process-Grows :
    (crypto : Crypto) (e : SyncEnvelope) (now : ℕ) (s : SyncState) (t : TrustState)
    → Grows s (process_incoming_envelope crypto e now s t).0
process-Grows crypto e now s t = elim (str_discrete e.sender_node_id s.local_node_id) [
  | yes own ↦ subst (Grows s) (sym (process-own crypto e now s t own)) (Grows-refl s)
  | no other ↦
      subst (Grows s) (sym (process-other crypto e now s t other))
        (on_verdict-Grows e s (authenticate_incoming crypto e now t).1)
]

elem-drop :
    (n : ℕ) (id : String) (ids : List String)
    → n ≤ length ids
    → elem id (drop n (ids ++ id ∷ [])) ≡ true
unfolding drop elem
elem-drop zero id ids h = elem-append id ids (id ∷ []) ∙ last (elem id ids)
  where
    last : (b : Bool) → b || elem id (id ∷ []) ≡ true
    last true = refl
    last false = ground arith
elem-drop (suc n) id [] h = absurd (omega arith)
elem-drop (suc n) id (x ∷ ids) h = elem-drop n id ids (omega arith)

elem-remember :
    (maxlen : ℕ) (id : String) (ids : List String)
    → 0 < maxlen
    → elem id (remember maxlen id ids) ≡ true
unfolding remember
elem-remember maxlen id ids h =
    elem-drop (length (ids ++ id ∷ []) - maxlen) id ids (omega (arith, length-append ids (id ∷ [])))

tracked-on_comparison :
    (c : VersionComparison) (e : SyncEnvelope) (s : SyncState)
    → 0 < s.max_tracked
    → elem e.message_id (on_comparison c e s).0.processed_message_ids ≡ true
unfolding on_comparison merge_envelope mark_processed
tracked-on_comparison equal e s h =
    elem-remember s.max_tracked e.message_id s.processed_message_ids h
tracked-on_comparison ahead e s h =
    elem-remember s.max_tracked e.message_id s.processed_message_ids h
tracked-on_comparison behind e s h =
    elem-remember s.max_tracked e.message_id s.processed_message_ids h
tracked-on_comparison concurrent e s h =
    elem-remember s.max_tracked e.message_id s.processed_message_ids h

tracked-ingest :
    (e : SyncEnvelope) (s : SyncState)
    → 0 < s.max_tracked
    → elem e.message_id (ingest e s).0.processed_message_ids ≡ true
unfolding ingest
tracked-ingest e s h = elim (Bool-cases (elem e.message_id s.processed_message_ids)) [
  | inl seen ↦ rw seen seen
  | inr new ↦ rw new (tracked-on_comparison (compare_versions s.version_map e.version_map) e s h)
]

ingest-tracked :
    (e : SyncEnvelope) (s : SyncState)
    → elem e.message_id s.processed_message_ids ≡ true
    → (ingest e s).0 ≡ s
unfolding ingest
ingest-tracked e s h = rw h refl

on_verdict-tracked :
    (e : SyncEnvelope) (s : SyncState) (r : Reply Verdict)
    → elem e.message_id s.processed_message_ids ≡ true
    → (on_verdict e s r).0 ≡ s
unfolding on_verdict
on_verdict-tracked e s (ok (true, o, d) events) h = ingest-tracked e s h
on_verdict-tracked e s (ok (false, o, d) events) h = refl
on_verdict-tracked e s (raised f) h = refl

-- Once an envelope has been ingested by a service that tracks at least one message, a second delivery
-- leaves the whole sync state as it is, whatever the trust service says by then.
pub process-again :
    (crypto : Crypto) (e : SyncEnvelope) (now : ℕ) (s : SyncState) (t : TrustState)
    → 0 < s.max_tracked
    → (process_incoming_envelope crypto e now (ingest e s).0 t).0 ≡ (ingest e s).0
process-again crypto e now s t h =
    elim (str_discrete e.sender_node_id (ingest e s).0.local_node_id) [
      | yes own ↦ process-own crypto e now (ingest e s).0 t own
      | no other ↦
          process-other crypto e now (ingest e s).0 t other
          ∙ on_verdict-tracked e (ingest e s).0 (authenticate_incoming crypto e now t).1
              (tracked-ingest e s h)
    ]
