-- ===== src/Sync/Ingest.antt =====
-- `process_incoming_envelope` of src/shyam/sync/service.py.
use shyam.Base.{
  ℕ, ◌-◌, zero, suc, String, ◌<>◌, List, [], ◌∷◌, ◌++◌, ite, if◌then◌else◌, length, str_discrete,
}
use shyam.Sync.Authenticator.{Crypto, Verdict, authenticate_incoming}
use shyam.Sync.Models.{
  SyncEnvelope, SyncResult, SyncOutcome, SyncEvent, sync_completed, sync_rejected, applied,
  already_current, conflict,
}
use shyam.Sync.Service.{SyncState, merge_capabilities, merge_availability}
use shyam.Base.Sets.{elem}
use shyam.Sync.Versions.{
  get_version, VersionComparison, equal, ahead, behind, concurrent, compare_versions,
  merge_version_maps,
}
use shyam.Trust.Service.{TrustState, Reply, ok, raised}
use shyam.Trust.Store.{TrustError}

pub data Processed : Type 0 where
  result : SyncResult → List SyncEvent → Processed
  aborted : TrustError → Processed

unfoldable pub drop : ℕ → List String → List String
drop zero xs = xs
drop (suc n) [] = []
drop (suc n) (x ∷ xs) = drop n xs

-- `deque.append` with `maxlen`: the oldest entries, at the front, fall out
unfoldable pub remember : ℕ → String → List String → List String
unfolding drop
remember maxlen id ids = let longer = ids ++ id ∷ [] in drop (length longer - maxlen) longer

abbrev comparison_value : VersionComparison → String
comparison_value equal = "equal"
comparison_value ahead = "ahead"
comparison_value behind = "behind"
comparison_value concurrent = "concurrent"

abbrev pub result_of : SyncOutcome → SyncEnvelope → ℕ → ℕ → String → SyncResult
result_of outcome e before after detail = record {
  outcome = outcome;
  sender_node_id = e.sender_node_id;
  message_id = e.message_id;
  local_version_before = before;
  local_version_after = after;
  detail = detail;
}

unfoldable pub mark_processed : SyncEnvelope → SyncState → SyncState
unfolding remember
mark_processed e s = record s {
  processed_message_ids = remember s.max_tracked e.message_id s.processed_message_ids;
}

-- Steps 4 and 5: the facts and the vectors of the envelope are merged.
unfoldable pub merge_envelope : SyncEnvelope → SyncState → SyncState
unfolding mark_processed
merge_envelope e s = mark_processed e (record s {
  synced_capabilities = merge_capabilities e.payload.node_capabilities s.synced_capabilities;
  synced_availability = merge_availability e.payload.node_availability s.synced_availability;
  version_map = merge_version_maps s.version_map e.version_map;
})

unfoldable pub apply_as :
    SyncOutcome → VersionComparison → SyncEnvelope → SyncState → SyncState × Processed
unfolding merge_envelope
apply_as outcome comparison e s =
    let after = merge_envelope e s in
    (
      after,
      result
          (result_of outcome e (get_version s.version_map s.local_node_id)
            (get_version after.version_map s.local_node_id)
            ("Synchronized facts successfully (causality: " <> comparison_value comparison <> ")"))
          (sync_completed e.sender_node_id e.message_id outcome ∷ []),
    )

unfoldable pub skip_as : VersionComparison → SyncEnvelope → SyncState → SyncState × Processed
unfolding mark_processed
skip_as comparison e s =
    let v = get_version s.version_map s.local_node_id in
    (
      mark_processed e s,
      result
          (result_of already_current e v v
            ("Local state is " <> comparison_value comparison <> " relative to remote"))
          [],
    )

-- Step 3, on the outcome of the comparison.
unfoldable pub on_comparison : VersionComparison → SyncEnvelope → SyncState → SyncState × Processed
unfolding apply_as skip_as
on_comparison equal e s = skip_as equal e s
on_comparison ahead e s = skip_as ahead e s
on_comparison behind e s = apply_as applied behind e s
on_comparison concurrent e s = apply_as conflict concurrent e s

-- What is done under the lock with an authenticated envelope.
unfoldable pub ingest : SyncEnvelope → SyncState → SyncState × Processed
unfolding on_comparison
ingest e s =
    if elem e.message_id s.processed_message_ids
    then (s, result (result_of already_current e 0 0 "Duplicate message already processed") [])
    else on_comparison (compare_versions s.version_map e.version_map) e s

unfoldable pub on_verdict : SyncEnvelope → SyncState → Reply Verdict → SyncState × Processed
unfolding ingest
on_verdict e s (ok (valid, outcome, detail) _) = if valid then ingest e s else (
  s,
  result (result_of outcome e 0 0 detail)
      (sync_rejected e.sender_node_id e.message_id outcome detail ∷ []),
)
on_verdict e s (raised failure) = (s, aborted failure)

unfoldable pub process_incoming_envelope :
    Crypto → SyncEnvelope → ℕ → SyncState → TrustState → SyncState × TrustState × Processed
unfolding on_verdict
process_incoming_envelope crypto e now s t =
    ite (str_discrete e.sender_node_id s.local_node_id)
      (s, t, result (result_of already_current e 0 0 "Ignored self-originating envelope") [])
      (let (t', v) = authenticate_incoming crypto e now t in
        let (s', p) = on_verdict e s v in (s', t', p))
