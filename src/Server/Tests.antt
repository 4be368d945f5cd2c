-- ===== src/Server/Tests.antt =====
-- Requests to the router on a concrete configuration.
use gateway_login.Base.{◌≡◌, refl, none, [], text_eq, codes}
use gateway_login.RateLimit.{script_error}
use gateway_login.Api.View.{write_err}
use gateway_login.Api.Handlers.{handle_get, get_response}
use gateway_login.Api.Middleware.{hex, api_key_auth, with_entry}
use gateway_login.ApiKey.{get_by_hash, find_by_hash, or_not_found, scanned}
use gateway_login.Karyawan.Table.{get_by_nik, find}
use gateway_login.Server.{single, serve, protected, limited}
use gateway_login.Server.Access.{Access, serve-Access, answered, response-answered}
use gateway_login.Samples.{no_limiter}
use gateway_login.Server.Samples.{libraries, config, limiting, deps, tables, meets}

serve-Access_example :
    Access libraries config deps meets tables
      (codes "k")
      no_limiter
      (handle_get none [] (codes "k1"))
      (serve libraries config deps meets tables (single (codes "k1")) (codes "k") no_limiter)
serve-Access_example =
    serve-Access libraries config deps meets tables (single (codes "k1")) (codes "k") no_limiter
      (handle_get none [] (codes "k1")) refl refl

-- The key "k", whose hash is there, is answered by the handler.
key_found :
    (serve libraries config deps meets tables (single (codes "k1")) (codes "k") no_limiter).response
    ≡ write_err 404 (codes "not_found")
unfolding serve protected api_key_auth get_by_hash find_by_hash or_not_found scanned hex with_entry
    limited handle_get get_by_nik find get_response text_eq
key_found = refl

response-answered_example :
    (answered libraries limiting deps
      (record meets { redis = script_error (codes "EOF") })
      tables
      (write_err 404 (codes "not_found"))
      (codes "one")
      no_limiter).response
    ≡ write_err 404 (codes "not_found")
response-answered_example =
    response-answered libraries limiting deps (record meets { redis = script_error (codes "EOF") })
      tables (write_err 404 (codes "not_found")) (codes "one") no_limiter
