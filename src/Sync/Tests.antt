-- ===== src/Sync/Tests.antt =====
-- src/shyam/sync on two nodes of a home that changed apart.
use shyam.Base.{max, arith, String, true, ◌≡◌, ◌≢◌, refl, ◌⊎◌, some, List, [], ◌∷◌, str_discrete}
use shyam.Base.Dict
use shyam.Base.Dict.{Dict}
use shyam.Sync.Authenticator.{Crypto, authenticate_incoming}
use shyam.Sync.Causality.{Means, compare_versions-Means, get_version-merge}
use shyam.Sync.Convergence.{Agree, receive, exchange-Agree}
use shyam.Sync.Divergence.{exchange-swaps}
use shyam.Sync.Gate.{IsAuthentic, process-gate}
use shyam.Sync.Ingest.{ingest, process_incoming_envelope}
use shyam.Sync.Models.{SyncEnvelope}
use shyam.Sync.Progress.{Grows, process-Grows, process-again}
use shyam.Sync.Service.{SyncState, create_sync_envelope}
use shyam.Base.Sets.{elem}
use shyam.Sync.Versions.{
  NodeVersionMap, get_version, concurrent, equal, compare_versions, merge_version_maps,
}
use shyam.Trust.Models.{
  TrustStatus, is_revoked, is_trusted, trust_status_discrete, TrustRecord, TrustEvent, new_record,
}
use shyam.Trust.Service.{TrustState, ok, get_record}
use shyam.Trust.Store.{absent}

-- A signature is the private key, and verifies under the public key of the same text.
abbrev toy : Crypto
toy = record {
  signable = λ e. e.message_id;
  sign = λ key bytes. key;
  verify = λ key bytes signature. some (elem signature (key ∷ []));
}

abbrev node : String → NodeVersionMap → String → SyncState
node id versions availability = record {
  local_node_id = id;
  public_key = id;
  private_key = id;
  version_map = versions;
  processed_message_ids = [];
  max_tracked = 2;
  synced_capabilities = (id, "file.read" ∷ []) ∷ [];
  synced_availability = ("tv", availability) ∷ [];
}

abbrev laptop : SyncState
laptop = node "laptop" (("laptop", 2) ∷ []) "AVAILABLE"

abbrev phone : SyncState
phone = node "phone" (("phone", 1) ∷ []) "UNAVAILABLE"

abbrev trusts_phone : TrustState
trusts_phone = record {
  records = ("phone", new_record "phone" TrustStatus.trusted 0) ∷ [];
  initialized = true;
  disk = absent;
}

abbrev from_phone : SyncEnvelope
from_phone = create_sync_envelope toy "sync_response" "m1" 5 phone

apart : compare_versions laptop.version_map phone.version_map ≡ concurrent
unfolding compare_versions get_version str_discrete elem Dict.get
apart = refl

accepted :
    (process_incoming_envelope toy from_phone 6 laptop trusts_phone).0.processed_message_ids
    ≡ "m1" ∷ []
unfolding process_incoming_envelope create_sync_envelope compare_versions get_version str_discrete
    elem authenticate_incoming get_record is_revoked trust_status_discrete Dict.get is_trusted
accepted = refl

compare_versions-Means_example :
    Means
      (compare_versions laptop.version_map phone.version_map)
      laptop.version_map
      phone.version_map
compare_versions-Means_example = compare_versions-Means laptop.version_map phone.version_map

get_version-merge_example :
    get_version (merge_version_maps laptop.version_map phone.version_map) "phone"
    ≡ max (get_version laptop.version_map "phone") (get_version phone.version_map "phone")
get_version-merge_example = get_version-merge laptop.version_map phone.version_map "phone"

process-gate_example :
    ((process_incoming_envelope toy from_phone 6 laptop trusts_phone).0 ≡ laptop)
    ⊎ ((from_phone.sender_node_id ≢ laptop.local_node_id)
        × (r : TrustRecord) × (events : List TrustEvent) × ((get_record from_phone.sender_node_id 6
              trusts_phone).1
            ≡ ok r events)
        × IsAuthentic toy from_phone r)
process-gate_example = process-gate toy from_phone 6 laptop trusts_phone

process-Grows_example :
    Grows laptop (process_incoming_envelope toy from_phone 6 laptop trusts_phone).0
process-Grows_example = process-Grows toy from_phone 6 laptop trusts_phone

process-again_example :
    (process_incoming_envelope toy from_phone 7 (ingest from_phone laptop).0 trusts_phone).0
    ≡ (ingest from_phone laptop).0
process-again_example = process-again toy from_phone 7 laptop trusts_phone (omega arith)

exchange-Agree_example : Agree (receive toy "m1" 5 phone laptop) (receive toy "m2" 5 laptop phone)
unfolding elem
exchange-Agree_example =
    exchange-Agree toy "m1" "m2" 5 phone laptop refl refl apart (refl, tt) (refl, tt)

exchange-swaps_example :
    (Dict.get "tv" (receive toy "m1" 5 phone laptop).synced_availability ≡ some "UNAVAILABLE")
    × (Dict.get "tv" (receive toy "m2" 5 laptop phone).synced_availability ≡ some "AVAILABLE")
    × (compare_versions
          (receive toy "m1" 5 phone laptop).version_map
          (receive toy "m2" 5 laptop phone).version_map
        ≡ equal)
unfolding elem Dict.get str_discrete
exchange-swaps_example =
    exchange-swaps toy "m1" "m2" 5 phone laptop "tv" "AVAILABLE" "UNAVAILABLE" refl refl apart
      (refl, tt) (refl, tt) refl refl
