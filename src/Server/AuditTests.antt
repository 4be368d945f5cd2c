-- ===== src/Server/AuditTests.antt =====
-- Two requests, the use of the first being recorded after the second.
use gateway_login.Base.{◌≡◌, refl, none, List, [], ◌∷◌, codes, text_eq}
use gateway_login.ApiKey.{KeyRow, get_by_hash, find_by_hash, or_not_found, scanned}
use gateway_login.Api.Middleware.{hex, api_key_auth, with_entry}
use gateway_login.Server.{single, serve, protected, limited}
use gateway_login.Server.Traffic.{Arrival}
use gateway_login.Server.Audit.{State, arrives, marks, Reach, here, later}
use gateway_login.Server.Audit.Laws.{IsAudited, Reach-IsAudited}
use gateway_login.Server.Samples.{libraries, config, deps, tables, meets}
use gateway_login.Samples.{no_limiter}

abbrev arrival : Arrival
arrival = record { route = single (codes "k1"); raw = codes "k"; meets = meets; tables = tables }

abbrev keys : List KeyRow
keys = tables.api_keys

abbrev twice : (s : State) × Reach libraries config deps keys no_limiter s
twice = (_, later (later here (arrives arrival)) (arrives arrival))

waiting : twice.0.pending ≡ codes "one" ∷ codes "one" ∷ []
unfolding serve protected api_key_auth get_by_hash find_by_hash or_not_found scanned hex with_entry
    limited text_eq
waiting = refl

abbrev recorded : (s : State) × Reach libraries config deps keys no_limiter s
recorded = (_, later twice.1 (marks (codes "one" ∷ []) [] (codes "one") none 7 waiting))

Reach-IsAudited_example : IsAudited libraries config deps keys no_limiter recorded.0
Reach-IsAudited_example =
    Reach-IsAudited libraries config deps keys no_limiter recorded.0 recorded.1
