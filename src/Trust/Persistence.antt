-- ===== src/Trust/Persistence.antt =====
-- src/shyam/trust/service.py and store.py: the trust file after a history of calls, and a restart.
use shyam.Base.{true, ◌≡◌, refl, List, [], ◌∷◌, arith}
use shyam.Base.Dict
use shyam.Base.Dict.{Dict, get-put}
use shyam.Trust.Models.{TrustRecord}
use shyam.Trust.Service.{
  TrustState, fresh, Call, grant, revoke, step, run, grant_trust, revoke_trust, initialize,
}
use shyam.Trust.Store.{holds, Write, succeeds}

-- The file holds what the service has in memory.
pub record IsPersisted (s : TrustState) : Type 0 where
  pub loaded : s.initialized ≡ true
  pub on_disk : s.disk ≡ holds s.records

abbrev pub write_of : Call → Write
write_of (grant w _ _ _ _ _ _) = w
write_of (revoke w _ _ _) = w

abbrev pub AllWritten : List Call → Type 0
AllWritten [] = Unit
AllWritten (c ∷ cs) = (write_of c ≡ succeeds) × AllWritten cs

initialize-IsPersisted : (d : Dict TrustRecord) → IsPersisted (initialize (fresh (holds d))).0
unfolding initialize
initialize-IsPersisted d = record { loaded = refl; on_disk = refl }

step-IsPersisted :
    (s : TrustState) (c : Call) → write_of c ≡ succeeds → IsPersisted s → IsPersisted (step s c)
unfolding step grant_trust revoke_trust
step-IsPersisted s (grant w id key r alias metadata now) e h = record {
  loaded = h.loaded;
  on_disk = ground arith;
}
step-IsPersisted s (revoke w id reason now) e h = record {
  loaded = h.loaded;
  on_disk = ground arith;
}

pub run-IsPersisted :
    (s : TrustState) (cs : List Call) → AllWritten cs → IsPersisted s → IsPersisted (run s cs)
unfolding run
run-IsPersisted s [] w h = h
run-IsPersisted s (c ∷ cs) w h = run-IsPersisted (step s c) cs w.1 (step-IsPersisted s c w.0 h)
