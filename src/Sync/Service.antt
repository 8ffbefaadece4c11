-- ===== src/Sync/Service.antt =====
-- src/shyam/sync/service.py. The lock makes each method one step; `process_incoming_envelope` asks the
-- trust service before it takes the lock. A set of texts is a list without repetitions.
use shyam.Base.{ℕ, ◌+◌, String, Option, none, some, List, [], ◌∷◌, ◌++◌, if◌then◌else◌, map}
use shyam.Base.Dict
use shyam.Base.Dict.{Dict}
use shyam.Base.Text.{le_str}
use shyam.Sync.Authenticator.{Crypto, sign_envelope}
use shyam.Sync.Models.{SyncPayload, SyncEnvelope, sync_protocol_version}
use shyam.Base.Sets.{elem, union}
use shyam.Sync.Versions.{NodeVersionMap, get_version, with_update}

pub record SyncState : Type 0 where
  pub local_node_id : String
  pub public_key : String
  pub private_key : String
  pub version_map : NodeVersionMap
  pub processed_message_ids : List String
  pub max_tracked : ℕ
  pub synced_capabilities : Dict (List String)
  pub synced_availability : Dict String

unfoldable pub init : String → String → String → ℕ → SyncState
init local_node_id public_key private_key max_tracked = record {
  local_node_id = local_node_id;
  public_key = public_key;
  private_key = private_key;
  version_map = (local_node_id, 0) ∷ [];
  processed_message_ids = [];
  max_tracked = max_tracked;
  synced_capabilities = [];
  synced_availability = [];
}

unfoldable pub bump : SyncState → SyncState
unfolding get_version with_update
bump s = record s {
  version_map =
      with_update s.version_map s.local_node_id (get_version s.version_map s.local_node_id + 1);
}

unfoldable pub increment_local_version : SyncState → SyncState × ℕ
unfolding bump
increment_local_version s = (bump s, get_version s.version_map s.local_node_id + 1)

-- `xs.update(ys)` on a set
unfoldable pub add_all : List String → List String → List String
unfolding elem
add_all [] xs = xs
add_all (y ∷ ys) xs = add_all ys (if elem y xs then xs else xs ++ y ∷ [])

abbrev pub or_empty : Option (List String) → List String
or_empty none = []
or_empty (some xs) = xs

-- `for n_id, caps in …: self._synced_capabilities.setdefault(n_id, set()).update(caps)`
unfoldable pub merge_capabilities : Dict (List String) → Dict (List String) → Dict (List String)
unfolding add_all
merge_capabilities [] d = d
merge_capabilities ((n_id, caps) ∷ rest) d =
    merge_capabilities rest (Dict.put n_id (add_all caps (or_empty (Dict.get n_id d))) d)

-- `for n_id, status in …: self._synced_availability[n_id] = status`
unfoldable pub merge_availability : Dict String → Dict String → Dict String
merge_availability [] d = d
merge_availability ((n_id, status) ∷ rest) d = merge_availability rest (Dict.put n_id status d)

-- An argument that is `None` is the empty dict here: the code skips both.
unfoldable pub update_local_facts : Dict (List String) → Dict String → SyncState → SyncState
unfolding merge_capabilities merge_availability bump
update_local_facts capabilities availability s = bump (record s {
  synced_capabilities = merge_capabilities capabilities s.synced_capabilities;
  synced_availability = merge_availability availability s.synced_availability;
})

-- `sorted` on texts
unfoldable pub insert : String → List String → List String
insert x [] = x ∷ []
insert x (y ∷ ys) = let rest = insert x ys in if le_str x y then x ∷ y ∷ ys else y ∷ rest

unfoldable pub sorted : List String → List String
unfolding insert
sorted [] = []
sorted (x ∷ xs) = insert x (sorted xs)

unfoldable pub payload_of : SyncState → SyncPayload
unfolding sorted union
payload_of s = record {
  known_node_ids =
      union (Dict.keys s.version_map)
        (union (Dict.keys s.synced_capabilities) (Dict.keys s.synced_availability));
  node_capabilities = map (λ e. (e.0, sorted e.1)) s.synced_capabilities;
  node_availability = s.synced_availability;
}

-- `message_id` is the fresh `uuid4`, `now` the default timestamp.
unfoldable pub create_sync_envelope : Crypto → String → String → ℕ → SyncState → SyncEnvelope
unfolding payload_of sign_envelope
create_sync_envelope crypto message_type message_id now s =
    sign_envelope crypto
      (record {
        sender_node_id = s.local_node_id;
        sender_public_key = s.public_key;
        protocol_version = sync_protocol_version;
        message_type = message_type;
        version_map = s.version_map;
        payload = payload_of s;
        timestamp = now;
        message_id = message_id;
        signature = "";
      })
      s.private_key
