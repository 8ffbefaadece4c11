-- ===== src/Trust/Tests.antt =====
-- src/shyam/trust on a phone that is granted trust and loses it.
use mathlib.Core.Option
use shyam.Base.{ℕ, zero, suc, ap, Option, String, true, ◌≡◌, refl, none, some, List, [], ◌∷◌}
use shyam.Base.Dict
use shyam.Base.Dict.{Dict}
use shyam.Base.Sets.{elem}
use shyam.Trust.Decisions.{trusted, standing, node_is_trusted-run}
use shyam.Trust.Models.{TrustStatus, TrustRecord, peer, new_record}
use shyam.Trust.Json.{Json, Payload, Scalar, null, text, object, reopened}
use shyam.Trust.Restart.{IsJson, Matches, restored_scalar, restored, map_reply, restart-agrees}
use shyam.Trust.Persistence.{IsPersisted}
use shyam.Trust.Service.{
  TrustState, fresh, ok, Call, grant, revoke, run, node_is_trusted, get_record,
}
use shyam.Trust.Store.{holds, succeeds, fails}

abbrev phone_record : TrustRecord
phone_record = new_record "phone" TrustStatus.trusted 1

abbrev saved : Dict TrustRecord
saved = ("phone", phone_record) ∷ []

abbrev loaded : TrustState
loaded = record { records = saved; initialized = true; disk = holds saved }

-- The second write fails: the revocation still counts in the running service.
abbrev history : List Call
history =
    grant succeeds "tablet" (some "key") peer "" none 2 ∷ revoke fails "phone" (some "lost") 3 ∷ []

abbrev written : List Call
written = grant succeeds "tablet" (some "key") peer "" none 2 ∷ revoke succeeds "phone" none 3 ∷ []

node_is_trusted-run_example :
    (node_is_trusted "phone" 9 (run loaded history)).1
    ≡ ok (standing "phone" (trusted "phone" saved) history) []
node_is_trusted-run_example = node_is_trusted-run "phone" 9 loaded history refl

loaded-IsPersisted : IsPersisted loaded
loaded-IsPersisted = record { loaded = refl; on_disk = refl }

-- A time as that many dots.
abbrev dots : ℕ → String
dots zero = ""
dots (suc n) = String.◌∷◌ "." (dots n)

abbrev size : String → ℕ
size String.[] = 0
size (String.◌∷◌ c t) = suc (size t)

size-dots : (n : ℕ) → size (dots n) ≡ n
size-dots zero = refl
size-dots (suc n) = ap suc (size-dots n)

-- A file that keeps the payload as it is.
abbrev verbatim : Json Payload
verbatim = record {
  dumps = λ p. p;
  loads = λ p. some p;
  isoformat = dots;
  fromisoformat = λ t. some (size t);
  jsonable = λ m. m;
}

same_scalar : (o : Option Scalar) → o ≡ Option.map (restored_scalar (λ m. m)) o
same_scalar none = refl
same_scalar (some null) = refl
same_scalar (some (text t)) = refl
same_scalar (some (object m)) = refl

same_fields : (o : Option (Dict Scalar)) → Matches (λ m. m) o o
same_fields none = tt
same_fields (some a) = λ field. same_scalar (Dict.get field a)

verbatim-IsJson : IsJson verbatim
verbatim-IsJson = record {
  reread = λ m. m;
  reads = λ p i. (p, refl, i, λ k. same_fields (Dict.get k p));
  times = λ t. ap some (size-dots t);
  empty = refl;
}

restart-agrees_example :
    (get_record "phone" 9 (fresh (reopened verbatim 8 (run loaded written).disk))).1
    ≡ map_reply (restored verbatim verbatim-IsJson) (get_record "phone" 9 (run loaded written)).1
unfolding elem
restart-agrees_example =
    restart-agrees verbatim verbatim-IsJson loaded written "phone" 8 9 (refl, (refl, tt))
      loaded-IsPersisted (refl, tt)
