-- ===== src/Commands/Api/Ends.antt =====
-- What the process of cmd/api leaves open, and whether its server limits the requests.
use gateway_login.Base.{◌+◌, ◌≡◌, Text, codes, Result, ok, err, map_err, ◌++◌}
use gateway_login.Settings.{Libraries}
use gateway_login.Bootstrap
use gateway_login.Bootstrap.{Opened, Pool, RedisClient, Faults, run, must_run, close}
use gateway_login.Bootstrap.Laws.{Closes, run-Closes}
use gateway_login.Commands.Api.{
  Event, listener_failed, signalled, Exit, fatal, failed, returned, ended, main,
}

-- After a return all is closed; after `os.Exit` nothing is; after `log.Fatalf` no pool is open.
abbrev pub Leaves : Opened → Exit × Opened → Type 0
Leaves o (returned, o') = o' ≡ o
Leaves o (failed e, o') = o' ≡ record { pools = o.pools + 1; clients = o.clients + 1 }
Leaves o (fatal e, o') = o'.pools ≡ o.pools

-- When a signal ends the API, its connections are closed. When its listener fails, they are left as
-- they were opened, since the process exits before the deferred close. When it cannot start, no
-- pool is left open.
pub main-Leaves :
    (lib : Libraries) (env : Text → Text) (f : Faults) (event : Event) (o : Opened)
    → Leaves o (main lib env f event o)
unfolding main must_run
main-Leaves lib env f event o =
    go event (run lib env f o).0 (run lib env f o).1 (run-Closes lib env f o)
  where
    go :
        (event : Event) (r : Result Text Bootstrap.Deps) (o' : Opened)
        → Closes f o (r, o')
        → Leaves o (ended event (map_err (λ e. codes "bootstrap: " ++ e) r, o'))
    go event (err e) o' h = unfold ended in h.0
    go (listener_failed e) (ok d) o' h = unfold ended in h.0
    go signalled (ok d) o' h = unfold ended in h.1
