-- ===== src/Commands/Sync.antt =====
-- cmd/sync/main.go: what `main` does before the scheduler runs, and the passes it then runs. The
-- scheduler and `Duration.String` are parameters. `serve` is a run whose passes do not overlap;
-- Commands.Sync.Service has the process with passes that do, and its shutdown.
pub mod Start
pub mod Passes
pub mod Service
pub mod Lives
pub mod Samples
use gateway_login.Base.{
  ◌≡◌, Option, none, some, List, [], ◌∷◌, ◌++◌, Text, text_or, codes, Result, ok, err, map_err,
  ◌>>=◌, ℕ, ℤ, double_i64,
}
use gateway_login.Postgres.{Time}
use gateway_login.Crypto.{Cipher}
use gateway_login.Stored
use gateway_login.Stored.{Config, Yaml}
use gateway_login.Settings
use gateway_login.Bootstrap
use gateway_login.Bootstrap.{Opened, Deps, must_run}
use gateway_login.Vps.{Client}
use gateway_login.Vps.Connect.{Driver, new_client_from_store_config}
use gateway_login.Sync.Store.{Db}
use gateway_login.Sync.Cleanup.{cleanup_stale_runs}
use gateway_login.Sync.Run.{Syncer, World, Outcome, new, sync_karyawan}
use gateway_login.Commands.Source.{Upstream, client_source}

-- What the start meets; `config` is the file, and `cleanup` the error of CleanupStaleRuns.
pub record Machine : Type 0 where
  pub getenv : Text → Text
  pub settings : Settings.Libraries
  pub cipher : Cipher
  pub yaml : Yaml
  pub boot : Bootstrap.Faults
  pub read_config : Option Text
  pub config : Option Text
  pub cleanup : Option Text
  pub read_at : Time
  pub now : Time
  pub driver : Driver
  pub upstream : Upstream
  pub duration_string : ℤ → Text
  pub add_func : Text → Option Text

-- What the scheduler runs, and how often.
pub record Started : Type 0 where
  pub deps : Deps
  pub syncer : Syncer Client
  pub spec : Text

-- The process as it is: the connections that are open, and the database.
pub record Process : Type 0 where
  pub opened : Opened
  pub db : Db

module _ (x : Machine) where
  unfoldable pub config_path : Text
  config_path = text_or (codes "/etc/gateway/config.yaml") (x.getenv (codes "GATEWAY_CONFIG_PATH"))

  -- The interval of the configuration file, or that of the environment.
  unfoldable pub spec_of : Deps → Config → Text
  spec_of d cfg =
      codes "@every " ++ text_or (x.duration_string d.cfg.sync_interval) cfg.sync.interval

  scheduled : Deps → Config → Client → Option Text → Result Text Started
  scheduled d cfg vps (some e) = err (codes "cron add: " ++ e)
  scheduled d cfg vps none = ok (record {
    deps = d;
    syncer = new (client_source x.upstream) vps d.cfg.sync_batch_size;
    spec = spec_of d cfg;
  })

  -- The client takes its batch size from the environment.
  unfoldable pub with_config : Deps → Config → Result Text Started
  unfolding scheduled spec_of
  with_config d cfg =
      map_err (λ e. codes "vps mysql: " ++ e)
        (new_client_from_store_config x.driver x.cipher (some cfg.vps) d.cfg.master_key
          d.cfg.sync_batch_size)
      >>= λ vps. scheduled d cfg vps (x.add_func (spec_of d cfg))

  -- Stale runs are older than twice the interval of the environment.
  unfoldable pub cleaned : Deps → Db → Db
  unfolding double_i64
  cleaned d db =
      (cleanup_stale_runs x.cleanup (codes "karyawan") (double_i64 d.cfg.sync_interval) x.read_at
        x.now db).1

  -- The error of the cleanup is logged, and the start goes on.
  unfoldable pub with_file : Deps → Result Text Config → Db → Result Text Started × Db
  unfolding config_path
  with_file d (err e) db =
      (err (codes "load gateway config " ++ config_path ++ codes ": " ++ e), db)
  with_file d (ok cfg) db = (with_config d cfg, cleaned d db)

  unfoldable pub with_deps : Result Text Deps × Opened → Db → Result Text Started × Process
  with_deps (err e, o) db = (err e, record { opened = o; db = db })
  with_deps (ok d, o) db =
      let (r, db') = with_file d (Stored.load x.yaml x.read_config x.config) db in
      (r, record { opened = o; db = db' })

  unfoldable pub start : Process → Result Text Started × Process
  start p = with_deps (must_run x.settings x.getenv x.boot p.opened) p.db

-- `runOnce` logs the count or the error.
unfoldable pub run_once : Upstream → World → Syncer Client → Db → Result Text ℕ × Db
run_once up w s db =
    let o = sync_karyawan (client_source up) w s db in
    (elim o.error [ none ↦ ok o.count | some e ↦ err e ], o.db)

-- The passes of the scheduler, each with the VPS and the world that it meets.
unfoldable pub serve : List (Upstream × World) → Syncer Client → Db → List (Result Text ℕ) × Db
unfolding run_once
serve [] s db = ([], db)
serve ((up, w) ∷ later) s db =
    let (r, db1) = run_once up w s db in let (rs, db2) = serve later s db1 in (r ∷ rs, db2)
