-- ===== src/Bootstrap/Tests.antt =====
-- src/shyam/bootstrap with a toy signature scheme: the signature of a text under a private key is the
-- public key that belongs to it.
use text.Mathlib.TextEquality.{eq_iff}
use mathlib.Core.Bool.{false≢true}
use shyam.Base.{String, true, false, ◌≡◌, ◌≢◌, refl, some, [], ◌∷◌, ite, str_discrete}
use shyam.Base.Dict
use shyam.Base.Dict.{Dict}
use shyam.Bootstrap.Admission.{Pins, Decides, check_of, handle_incoming_request-Decides}
use shyam.Bootstrap.Authority.{answered, Signing, Authority, handle_incoming_request}
use shyam.Bootstrap.Client.{BootstrapService, lost, returned, request_of, execute_client_bootstrap}
use shyam.Bootstrap.Models.{BootstrapRequest, BootstrapSession, ready}
use shyam.Bootstrap.Mutual.{direct, asking, bootstrap-mutual}
use shyam.Bootstrap.Sessions.{Ends, execute_client_bootstrap-Ends}
use shyam.Identity.{NodeIdentity}
use shyam.Sync.Authenticator.{Crypto}
use shyam.Sync.Models.{SyncEnvelope}
use shyam.Sync.Service.{SyncState, init, create_sync_envelope}
use shyam.Trust.Models.{TrustStatus, TrustRecord, new_record, is_revoked, trust_status_discrete}
use shyam.Trust.Service.{TrustState, record_of}
use shyam.Trust.Store.{holds, succeeds}

-- A signature is good if it is the text of the key.
abbrev toy : Signing
toy = record {
  isoformat = λ _. "2026";
  sign = λ private text. private;
  verify = λ key text signature. answered (ite (str_discrete key signature) true false);
}

abbrev laptop : NodeIdentity
laptop = record { node_id = "laptop"; node_name = "desk"; protocol_version = "0.2.0" }

abbrev hub : NodeIdentity
hub = record { node_id = "hub"; node_name = "hub"; protocol_version = "0.2.0" }

abbrev authority : Authority
authority = record { identity = some hub; sync_key = some "hub-key" }

-- The hub trusts the laptop under an old key.
abbrev old_record : TrustRecord
old_record = record (new_record "laptop" TrustStatus.trusted 1) { public_key = some "old-key" }

abbrev knows_laptop : TrustState
knows_laptop = record {
  records = ("laptop", old_record) ∷ [];
  initialized = true;
  disk = holds (("laptop", old_record) ∷ []);
}

abbrev new_to_all : TrustState
new_to_all = record { records = []; initialized = true; disk = holds [] }

abbrev laptop_sync : SyncState
laptop_sync = init "laptop" "key" "key" 100

abbrev device : BootstrapService
device = record {
  identity = some laptop;
  trust = new_to_all;
  sync = some laptop_sync;
  sessions = [];
}

abbrev request : BootstrapRequest
request = request_of toy laptop laptop_sync (asking "s1" 5)

nonempty : ◌≢◌ {A = String} "key" ""
nonempty e = false≢true ((eq_iff "key" "").1 e)

hub_key_nonempty : ◌≢◌ {A = String} "hub-key" ""
hub_key_nonempty e = false≢true ((eq_iff "hub-key" "").1 e)

handle_incoming_request-Decides_example :
    Decides request 6 knows_laptop
      (check_of toy request)
      (handle_incoming_request toy authority succeeds request 6 knows_laptop)
unfolding request_of init
handle_incoming_request-Decides_example =
    handle_incoming_request-Decides toy authority request 6 knows_laptop refl nonempty

execute_client_bootstrap-Ends_example :
    Ends "s1" (execute_client_bootstrap toy (λ _ _. lost "no route") succeeds "hub" "s1" 5 device)
execute_client_bootstrap-Ends_example =
    execute_client_bootstrap-Ends toy (λ _ _. lost "no route") succeeds "hub" "s1" 5 device

signs : (text : String) → toy.verify "key" text (toy.sign "key" text) ≡ answered true
unfolding str_discrete
signs text = refl

laptop_not_revoked : is_revoked (record_of "laptop" 6 new_to_all.records) ≡ false
unfolding is_revoked record_of new_record Dict.get trust_status_discrete
laptop_not_revoked = refl

bootstrap-mutual_example :
    let after =
      execute_client_bootstrap toy
        (direct toy authority 6 new_to_all)
        succeeds
        "hub"
        "s1"
        6
        device in
    ((s : BootstrapSession) × (after.1 ≡ returned s) × (s.state ≡ ready))
    × Pins "hub" "hub-key" after.0.trust.records
    × Pins "laptop" "key"
        (handle_incoming_request toy authority succeeds
          (request_of toy laptop laptop_sync (asking "s1" 6))
          6
          new_to_all).0.records
unfolding init
bootstrap-mutual_example =
    bootstrap-mutual toy authority new_to_all device laptop hub laptop_sync "hub-key" "hub" "s1" 6
      refl refl signs nonempty refl refl hub_key_nonempty refl laptop_not_revoked

abbrev plain : Crypto
plain = record {
  signable = λ _. "";
  sign = λ private text. private;
  verify = λ key text signature. some (ite (str_discrete key signature) true false);
}

-- An envelope of a laptop that signs with a key.
abbrev envelope_under : String → SyncEnvelope
envelope_under key = create_sync_envelope plain "sync_response" "m1" 7 (init "laptop" key key 100)
