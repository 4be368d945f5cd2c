-- ===== src/Server/TrafficTests.antt =====
-- One key that sends two requests in a minute, one being allowed.
use gateway_login.Base.{
  ℕ, ◌+◌, none, false, ◌≡◌, ◌≤◌, refl, List, [], ◌∷◌, codes, pos, arith, text_eq,
}
use gateway_login.Karyawan.Table.{get_by_nik, find}
use gateway_login.ApiKey.{get_by_hash, find_by_hash, or_not_found, scanned}
use gateway_login.RateLimit.Tracking.{count_in}
use gateway_login.RateLimit.Window.{decide, start}
use gateway_login.Api.View.{write_err}
use gateway_login.Api.Handlers.{handle_get, get_response}
use gateway_login.Api.Middleware.{hex}
use gateway_login.Samples.{key_row}
use gateway_login.Server.{single}
use gateway_login.Server.Traffic.{
  Arrival, serve_all, respond_all, requests, responses, IsCounted, AllCounted,
}
use gateway_login.Server.Traffic.Limit.{answered, serve_all-decide, answered-serve_all}
use gateway_login.Server.Samples.{libraries, limiting, deps, tables, meets}

abbrev arrival : ℕ → Arrival
arrival now = record {
  route = single (codes "k1");
  raw = codes "k";
  meets = record meets { now = now; server = now + 3 };
  tables = tables;
}

counted : (now : ℕ) → IsCounted libraries limiting deps 3 (arrival now)
unfolding get_by_hash find_by_hash or_not_found scanned hex text_eq
counted now = record {
  entry = scanned (key_row (codes "one") (codes "6b") false);
  given = cc;
  found = refl;
  named = cc;
  answers = refl;
  clock = refl;
  response = handle_get none [] (codes "k1");
  by_handler = refl;
}

abbrev arrivals : List Arrival
arrivals = arrival 60001 ∷ arrival 60002 ∷ []

abbrev all : AllCounted libraries limiting deps 3 arrivals
all = (counted 60001, (counted 60002, tt))

serve_all-decide_example :
    (serve_all libraries limiting deps arrivals start).0
    ≡ respond_all
        (decide 60000 (pos 1) [] (requests libraries limiting deps 3 arrivals all))
        (responses libraries limiting deps 3 arrivals all)
serve_all-decide_example =
    serve_all-decide libraries limiting deps 3 refl refl arrivals all
      (omega arith, (omega arith, tt))

second_denied :
    (serve_all libraries limiting deps arrivals start).0
    ≡ write_err 404 (codes "not_found") ∷ write_err 429 (codes "rate_limited") ∷ []
unfolding decide count_in text_eq counted handle_get get_by_nik find get_response scanned
second_denied = serve_all-decide_example

answered-serve_all_example :
    answered
      (codes "apikey:one")
      1
      (requests libraries limiting deps 3 arrivals all)
      (serve_all libraries limiting deps arrivals start).0
    ≤ 1
answered-serve_all_example =
    answered-serve_all libraries limiting deps 3 refl refl arrivals all (codes "one") 1
      (omega arith, (omega arith, tt))
