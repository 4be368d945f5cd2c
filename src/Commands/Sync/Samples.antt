-- ===== src/Commands/Sync/Samples.antt =====
-- A start of the synchroniser on the files of a setup.
use gateway_login.Base.{◌≡◌, refl, none, some, [], ◌++◌, ◌*◌, codes, ok, pos, text_eq}
use gateway_login.Crypto.{base64_to_key, decrypt, open_raw}
use gateway_login.Stored.{get_decrypted_password, load}
use gateway_login.Settings
use gateway_login.Settings.{check_required, default_of}
use gateway_login.Settings.Samples
use gateway_login.Settings.Samples.{environment, settings, text_of, number_of}
use gateway_login.Bootstrap.{
  Deps, run, must_run, with_settings, with_pool, with_redis, new_pool, new_client, close_pool,
}
use gateway_login.Bootstrap.Samples.{healthy, closed}
use gateway_login.Vps
use gateway_login.Vps.Connect.{Driver, new_client_from_store_config}
use gateway_login.Sync.Cleanup.{cleanup_stale_runs}
use gateway_login.Sync.Run.{World, new}
use gateway_login.Setup.{merged, with_defaults}
use gateway_login.Setup.Samples.{cipher, libraries}
use gateway_login.Samples.{text_le, staff, empty_db, clock, syncer}
use gateway_login.Commands.Source.{Upstream}
use gateway_login.Commands.Sync.{
  Machine, Process, Started, start, with_deps, with_file, with_config, spec_of, cleaned,
}

abbrev pub driver : Driver
driver = record {
  format_dsn = λ c. c.user ++ codes ":" ++ c.passwd ++ codes "@" ++ c.addr;
  opening = λ dsn. none;
  pinging = λ dsn. none;
}

abbrev pub upstream : Upstream
upstream = record { le = text_le; table = staff; faults = Vps.no_faults }

abbrev pub world : World
world = record { fault = λ c. none; clock = clock; run_id = 1 }

abbrev pub machine : Machine
machine = record {
  getenv = environment;
  settings = Settings.Samples.libraries;
  cipher = cipher;
  yaml = libraries.yaml;
  boot = healthy;
  read_config = none;
  config = some [];
  cleanup = none;
  read_at = 100;
  now = 101;
  driver = driver;
  upstream = upstream;
  duration_string = λ d. codes "5m0s";
  add_func = λ spec. none;
}

abbrev pub process : Process
process = record { opened = closed; db = empty_db }

abbrev pub deps : Deps
deps = record {
  cfg = settings;
  pool = some (record {
    dsn = settings.postgres_dsn;
    max_conns = 10;
    min_conns = 1;
    max_conn_lifetime = 3600 * 1000000000;
    max_conn_idle_time = 1800 * 1000000000;
  });
  redis = some (record { addr = settings.redis_addr; password = []; db = pos 0 });
}

-- Every five minutes, with batches of 500.
abbrev pub state : Started
state = record { deps = deps; syncer = syncer 500; spec = codes "@every 5m" }

abbrev pub running_process : Process
running_process = record { opened = record { pools = 1; clients = 1 }; db = empty_db }

pub starts : start machine process ≡ (ok state, running_process)
unfolding start must_run run with_settings with_pool with_redis new_pool new_client close_pool
    text_eq Settings.load check_required default_of Settings.Samples.libraries text_of number_of
    with_deps with_file with_config spec_of cleaned merged base64_to_key get_decrypted_password
    decrypt open_raw new_client_from_store_config new load cleanup_stale_runs Vps.new_client
    Vps.set_batch_size with_defaults
starts = refl
