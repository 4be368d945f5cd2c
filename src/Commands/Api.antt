-- ===== src/Commands/Api.antt =====
-- cmd/api/main.go: the server that `main` builds from what it opened, and how the process ends.
pub mod Ends
use gateway_login.Base.{
  Bool, true, false, Option, none, some, [], ◌∷◌, ◌++◌, Text, codes, Result, ok, err,
}
use gateway_login.Settings.{Settings, Libraries}
use gateway_login.Bootstrap
use gateway_login.Bootstrap.{Opened, RedisClient, Faults, must_run, close}
use gateway_login.Server

-- The listener ends with an error other than ErrServerClosed, or a signal comes.
pub data Event : Type 0 where
  listener_failed : Text → Event
  signalled : Event

-- `log.Fatalf`, `os.Exit(1)` after the listener's error, and the return from `main`.
pub data Exit : Type 0 where
  fatal failed : Text → Exit
  returned : Exit

has_redis : Option RedisClient → Bool
has_redis none = false
has_redis (some c) = true

-- The arguments of `server.New`.
unfoldable pub server_config : Settings → Server.Config
server_config cfg = record { addr = cfg.http_addr; api_rate_limit_rpm = cfg.api_rate_limit_per_min }

unfoldable pub server_deps : Bootstrap.Deps → Server.Deps
unfolding has_redis
server_deps d = record { api = true; redis = has_redis d.redis }

-- Only the return runs the deferred `d.Close()`; the error of `Shutdown` is dropped.
unfoldable pub ended : Event → Result Text Bootstrap.Deps × Opened → Exit × Opened
ended event (err e, o) = (fatal e, o)
ended (listener_failed e) (ok d, o) = (failed e, o)
ended signalled (ok d, o) = (returned, close (some d) o)

unfoldable pub main : Libraries → (Text → Text) → Faults → Event → Opened → Exit × Opened
main lib env f event o = ended event (must_run lib env f o)
