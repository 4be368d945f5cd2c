-- ===== src/Bootstrap/Tests.antt =====
-- A start without Redis, and one with everything.
use gateway_login.Base.{◌≡◌, refl, some, Text, text_eq, codes, err}
use gateway_login.Settings
use gateway_login.Settings.{check_required, default_of}
use gateway_login.Settings.Samples.{libraries, environment, text_of, number_of}
use gateway_login.Bootstrap.{
  Faults, run, with_settings, with_pool, with_redis, new_pool, new_client, close_pool,
}
use gateway_login.Bootstrap.Samples.{healthy, closed}
use gateway_login.Bootstrap.Laws.{Closes, run-Closes}

abbrev without_redis : Faults
without_redis = record healthy { ping_redis = some (codes "connection refused") }

abbrev refused : Text
refused = codes "redis: ping redis: connection refused"

refused_start :
    run libraries environment without_redis closed
    ≡ (err refused, record { pools = 0; clients = 1 })
unfolding run with_settings with_pool with_redis new_pool new_client close_pool text_eq
    Settings.load check_required default_of libraries text_of number_of
refused_start = refl

-- The client that could not be pinged is left open.
run-Closes_example : Closes without_redis closed (err refused, record { pools = 0; clients = 1 })
unfolding run with_settings with_pool with_redis new_pool new_client close_pool text_eq
    Settings.load check_required default_of libraries text_of number_of
run-Closes_example = run-Closes libraries environment without_redis closed
