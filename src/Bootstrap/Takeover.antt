-- ===== src/Bootstrap/Takeover.antt =====
-- src/shyam/bootstrap/service.py and src/shyam/sync/authenticator.py: a bootstrap request for a node
-- that is trusted already.
use shyam.Base.{Bool, false}
use shyam.Base.Dict.{Dict}
use shyam.Bootstrap.Authority.{Authority}
use shyam.Sync.Authenticator.{Verdict}
use shyam.Trust.Service.{Reply, ok, raised}

-- The verdict, and no where the trust service raised.
unfoldable pub passes : Reply Verdict → Bool
passes (ok v _) = v.0
passes (raised _) = false
