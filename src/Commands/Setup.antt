-- ===== src/Commands/Setup.antt =====
-- cmd/setup: `main` (main.go), `runMigrations` (migrate.go) and `runInitialSync` (sync.go). The
-- files stand at the paths of the environment, which are two; what migrations do to the schema is
-- golang-migrate's.
pub mod Laws
pub mod Keeps
pub mod Settled
use gateway_login.Base.{
  ◌≡◌, Option, none, some, List, [], ◌++◌, Text, text_or, codes, is_empty, Result, ok, err,
  if◌then◌else◌, ℤ, pos, leb_ℤ,
}
use gateway_login.Postgres.{Time}
use gateway_login.Stored.{Config}
use gateway_login.ApiKey.{KeyRow, Entry, insert_api_key}
use gateway_login.Vps.{Client}
use gateway_login.Vps.Connect.{Driver, new_client_from_store_config}
use gateway_login.Sync.Store.{Db}
use gateway_login.Sync.Run.{World, Outcome, new, sync_karyawan}
use gateway_login.Setup
use gateway_login.Setup.{Libraries, Meets, Files, Written}
use gateway_login.Setup.Environment.{question_names, ask}
use gateway_login.Setup.Terminal.{Survey, questions, ask_terminal}
use gateway_login.Setup.KeyEntry.{api_key_entry}
use gateway_login.Commands.Source.{Upstream, client_source}

-- What `Up` of golang-migrate reports; `no_change` is ErrNoChange.
pub data Up : Type 0 where
  applied no_change : Up
  up_failed : Text → Up

-- `migrate.New` and `Up`.
pub record Migrator : Type 0 where
  pub create : Text → Text → Option Text
  pub up : Up

unfoldable pub up_error : Up → Option Text
up_error applied = none
up_error no_change = none
up_error (up_failed e) = some (codes "apply migrations: " ++ e)

unfoldable pub run_migrations : Migrator → Text → Text → Option Text
unfolding up_error
run_migrations m dsn dir =
    if is_empty dir
    then some (codes "migrations dir is empty")
    else elim (m.create (codes "file://" ++ dir) dsn) [
      | some e ↦ some (codes "new migrator: " ++ e)
      | none ↦ up_error m.up
    ]

-- `openPool`: the errors of `pgxpool.New` and `Ping`.
unfoldable pub open_pool : Option Text → Option Text → Option Text
open_pool (some e) ping = some (codes "open pg: " ++ e)
open_pool none (some e) = some (codes "ping pg: " ++ e)
open_pool none none = none

-- What a run of the command meets.
pub record Machine : Type 0 where
  pub getenv : Text → Text
  pub survey : Survey
  -- Its `answers` are replaced by those of the prompter.
  pub meets : Meets
  pub open_pg : Option Text
  pub ping_pg : Option Text
  pub migrator : Migrator
  pub insert : Option Text
  pub now : Time
  pub driver : Driver
  pub upstream : Upstream
  pub world : World

pub record System : Type 0 where
  pub files : Files
  pub keys : List KeyRow
  pub db : Db

-- What is printed after the prompts.
pub record Summary : Type 0 where
  pub vps_host : Text
  pub vps_database : Text
  pub config_written : Text
  pub env_written : Text
  pub master_key : Text
  pub api_key : Text

-- How the command ends: with the message of `log.Fatalf`, or without Postgres, or after the initial
-- synchronisation, which gives an error or not.
pub data Exit : Type 0 where
  fatal : Text → Exit
  skipped : Exit
  wired : Option Text → Exit

pub record Ended : Type 0 where
  pub exit : Exit
  pub shown : Option Summary
  pub system : System

module _ (lib : Libraries) (x : Machine) where
  -- `envOr`
  unfoldable pub env_or : Text → Text → Text
  env_or k fallback = text_or fallback (x.getenv k)

  abbrev pub config_path : Text
  config_path = env_or (codes "GATEWAY_CONFIG_PATH") (codes "/etc/gateway/config.yaml")

  abbrev pub dotenv_path : Text
  dotenv_path = env_or (codes "GATEWAY_DOTENV_PATH") (codes "/etc/gateway/.env")

  abbrev pub migrations_dir : Text
  migrations_dir = env_or (codes "GATEWAY_MIGRATIONS_DIR") (codes "internal/db/migrations")

  -- The terminal is asked unless SETUP_HOST is set.
  unfoldable pub prompted : Meets
  prompted = record x.meets {
    answers =
        if is_empty (x.getenv (codes "SETUP_HOST"))
        then ask_terminal x.survey questions
        else ask x.getenv question_names;
  }

  outcome_of : Outcome → Option Text × Db
  outcome_of o = (elim o.error [ none ↦ none | some e ↦ some (codes "sync: " ++ e) ], o.db)

  synced : ℤ → Result Text Client → Db → Option Text × Db
  unfolding outcome_of
  synced batch (err e) db = (some (codes "vps mysql: " ++ e), db)
  synced batch (ok vps) db =
      let src = client_source x.upstream in
      outcome_of (sync_karyawan src x.world (new src vps batch) db)

  unfoldable pub run_initial_sync : Option Config → Text → Db → Option Text × Db
  unfolding synced
  run_initial_sync none master_b64 db = (some (codes "nil store config"), db)
  run_initial_sync (some cfg) master_b64 db =
      let batch = if leb_ℤ cfg.sync.batch_size (pos 0) then pos 500 else cfg.sync.batch_size in
      synced batch
        (new_client_from_store_config x.driver lib.cipher (some cfg.vps) master_b64 batch) db

  abbrev summary : Written → Summary
  summary w = record {
    vps_host = w.config.vps.host;
    vps_database = w.config.vps.database;
    config_written = config_path;
    env_written = dotenv_path;
    master_key = w.master;
    api_key = w.api_key;
  }

  abbrev ends : Exit → Written → System → Ended
  ends exit w s = record { exit = exit; shown = some (summary w); system = s }

  -- The initial synchronisation is best-effort.
  unfoldable pub with_inserted : Written → System → Option Text × List KeyRow → Ended
  with_inserted w s (some e, keys) =
      ends (fatal (codes "api key insert: " ++ e)) w (record s { keys = keys })
  with_inserted w s (none, keys) =
      let (e, db) = run_initial_sync (some w.config) w.master s.db in
      ends (wired e) w (record s { keys = keys; db = db })

  abbrev pub entry_of : Written → Entry
  entry_of w = api_key_entry lib (some w.config) w.api_key (codes "default")

  unfoldable pub with_migrations : Written → System → Option Text → Ended
  with_migrations w s (some e) = ends (fatal (codes "migrations: " ++ e)) w s
  with_migrations w s none =
      with_inserted w s (insert_api_key x.insert x.now (some (entry_of w)) s.keys)

  unfoldable pub with_pool : Written → System → Option Text → Ended
  with_pool w s (some e) = ends (fatal (codes "postgres: " ++ e)) w s
  with_pool w s none =
      with_migrations w s
        (run_migrations x.migrator (x.getenv (codes "POSTGRES_DSN")) migrations_dir)

  unfoldable pub with_written : System → Result Text Written × Files → Ended
  with_written s (err e, files) = record {
    exit = fatal (codes "setup: " ++ e);
    shown = none;
    system = record s { files = files };
  }
  with_written s (ok w, files) =
      if is_empty (x.getenv (codes "POSTGRES_DSN"))
      then ends skipped w (record s { files = files })
      else with_pool w (record s { files = files }) (open_pool x.open_pg x.ping_pg)

  unfoldable pub main : System → Ended
  main s =
      with_written s
        (Setup.run_prompt_flow lib prompted (x.getenv (codes "GATEWAY_MASTER_KEY")) s.files)
