-- ===== src/Bootstrap.antt =====
-- internal/bootstrap/bootstrap.go with the connections of internal/db/pg.go and
-- internal/redisx/redis.go and the level of internal/logger/logger.go: how a command opens what it
-- needs. The errors of the drivers are parameters, and the pools and clients that are open are
-- counted.
pub mod Laws
pub mod Samples
mod Tests
use gateway_login.Base.{
  ℕ, ◌+◌, ◌-◌, ◌*◌, Option, none, some, ◌++◌, Text, codes, is_empty, Result, ok, err, map_err,
  if◌then◌else◌, ℤ,
}
use gateway_login.Settings
use gateway_login.Settings.{Settings, Libraries}

-- The pools and Redis clients of the process that are open.
pub record Opened : Type 0 where
  pub pools : ℕ
  pub clients : ℕ

-- The limits of a pool, durations in nanoseconds.
pub record Pool : Type 0 where
  pub dsn : Text
  pub max_conns : ℕ
  pub min_conns : ℕ
  pub max_conn_lifetime : ℕ
  pub max_conn_idle_time : ℕ

pub record RedisClient : Type 0 where
  pub addr : Text
  pub password : Text
  pub db : ℤ

-- The errors of pgxpool's ParseConfig, NewWithConfig and Ping, and of the Redis ping.
pub record Faults : Type 0 where
  pub parse_config : Option Text
  pub new_with_config : Option Text
  pub ping_pg : Option Text
  pub ping_redis : Option Text

abbrev minute : ℕ
minute = 60 * 1000000000

unfoldable pub close_pool : Opened → Opened
close_pool o = record o { pools = o.pools - 1 }

unfoldable pub close_client : Opened → Opened
close_client o = record o { clients = o.clients - 1 }

-- db.NewPool; the pool is closed if it cannot be pinged.
pinged_pool : Option Text → Pool → Opened → Result Text Pool × Opened
unfolding close_pool
pinged_pool (some e) pool o = (err (codes "ping pg: " ++ e), close_pool o)
pinged_pool none pool o = (ok pool, o)

created_pool : Option Text → Option Text → Pool → Opened → Result Text Pool × Opened
unfolding pinged_pool
created_pool (some e) ping pool o = (err (codes "create pg pool: " ++ e), o)
created_pool none ping pool o = pinged_pool ping pool (record o { pools = o.pools + 1 })

parsed_pool : Option Text → Option Text → Option Text → Text → Opened → Result Text Pool × Opened
unfolding created_pool
parsed_pool (some e) create ping dsn o = (err (codes "parse pg dsn: " ++ e), o)
parsed_pool none create ping dsn o =
    created_pool create ping
      (record {
        dsn = dsn;
        max_conns = 10;
        min_conns = 1;
        max_conn_lifetime = 60 * minute;
        max_conn_idle_time = 30 * minute;
      })
      o

unfoldable pub new_pool : Faults → Text → Opened → Result Text Pool × Opened
unfolding parsed_pool
new_pool f dsn o = parsed_pool f.parse_config f.new_with_config f.ping_pg dsn o

-- redisx.NewClient; a client that cannot be pinged stays open.
pinged_client : Option Text → RedisClient → Opened → Result Text RedisClient × Opened
pinged_client (some e) c o = (err (codes "ping redis: " ++ e), o)
pinged_client none c o = (ok c, o)

unfoldable pub new_client : Faults → Text → Text → ℤ → Opened → Result Text RedisClient × Opened
unfolding pinged_client
new_client f addr password db o =
    if is_empty addr
    then (err (codes "redis addr is required"), o)
    else pinged_client f.ping_redis (record { addr = addr; password = password; db = db })
        (record o { clients = o.clients + 1 })

-- `Deps`; a pool or a client may be nil.
pub record Deps : Type 0 where
  pub cfg : Settings
  pub pool : Option Pool
  pub redis : Option RedisClient

closed_pool : Option Pool → Opened → Opened
closed_pool none o = o
closed_pool (some p) o = close_pool o

closed_client : Option RedisClient → Opened → Opened
closed_client none o = o
closed_client (some c) o = close_client o

unfoldable pub close : Option Deps → Opened → Opened
unfolding closed_pool closed_client
close none o = o
close (some d) o = closed_client d.redis (closed_pool d.pool o)

-- After the Redis client: the pool is closed on an error.
unfoldable pub with_redis :
    Settings → Pool → Result Text RedisClient × Opened → Result Text Deps × Opened
with_redis cfg pool (err e, o) = (err (codes "redis: " ++ e), close_pool o)
with_redis cfg pool (ok c, o) = (ok (record { cfg = cfg; pool = some pool; redis = some c }), o)

unfoldable pub with_pool : Faults → Settings → Result Text Pool × Opened → Result Text Deps × Opened
with_pool f cfg (err e, o) = (err (codes "postgres: " ++ e), o)
with_pool f cfg (ok pool, o) =
    with_redis cfg pool (new_client f cfg.redis_addr cfg.redis_password cfg.redis_db o)

unfoldable pub with_settings : Faults → Result Text Settings → Opened → Result Text Deps × Opened
with_settings f (err e) o = (err (codes "config: " ++ e), o)
with_settings f (ok cfg) o = with_pool f cfg (new_pool f cfg.postgres_dsn o)

unfoldable pub run : Libraries → (Text → Text) → Faults → Opened → Result Text Deps × Opened
run lib env f o = with_settings f (Settings.load lib env) o

-- `MustRun` ends the process with the message of the error.
unfoldable pub must_run : Libraries → (Text → Text) → Faults → Opened → Result Text Deps × Opened
must_run lib env f o =
    let (d, o') = run lib env f o in (map_err (λ e. codes "bootstrap: " ++ e) d, o')
