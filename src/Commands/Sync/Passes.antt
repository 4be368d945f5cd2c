-- ===== src/Commands/Sync/Passes.antt =====
-- The databases that the commands reach from an empty one, by passes and by the recovery of stale
-- runs; and what the recovery finds there.
use mathlib.Core.Path.{subst}
use gateway_login.Base.{
  ℕ, ◌≡◌, refl, Option, none, some, List, Text, Result, ok, err, sym, codes, double_i64, ap,
}
use gateway_login.Vps.{Client}
use gateway_login.Stored.{Config}
use gateway_login.Sync.Store.{Db}
use gateway_login.Sync.Cleanup.{cleanup_stale_runs}
use gateway_login.Sync.Run.{World, Syncer}
use gateway_login.Sync.Steps.Killed.{killed, killed-AllSettled}
use gateway_login.Sync.Runs.{AllSettled, sync_karyawan-AllSettled}
use gateway_login.Sync.Recovery.{cleanup_stale_runs-settled}
use gateway_login.Bootstrap.{Opened, Deps, must_run}
use gateway_login.ApiKey.{KeyRow}
use gateway_login.Setup.{Libraries, Files}
use gateway_login.Commands.Setup
use gateway_login.Commands.Setup.Settled.{main-AllSettled}
use gateway_login.Commands.Source.{Upstream, client_source}
use gateway_login.Commands.Sync.{Machine, Process, start, with_deps, with_file, cleaned, run_once}

-- One step of the commands: a run of setup, a start of the synchroniser, one of its passes, or a
-- pass whose process dies after some of its calls; whatever they meet.
pub data Step (db : Db) : Db → Type 0 where
  set_up :
      (lib : Libraries) (x : Setup.Machine) (files : Files) (keys : List KeyRow)
      → Step db (Setup.main lib x (record { files = files; keys = keys; db = db })).system.db
  started : (x : Machine) (o : Opened) → Step db (start x (record { opened = o; db = db })).1.db
  ran : (up : Upstream) (w : World) (s : Syncer Client) → Step db (run_once up w s db).1
  killed_pass :
      (up : Upstream) (w : World) (s : Syncer Client) (m : ℕ)
      → Step db (killed w s.resource ((client_source up).fetch s.src) m db)

pub data Reach (db : Db) : Db → Type 0 where
  here : Reach db db
  later : {a b : Db} → Reach db a → Step a b → Reach db b

-- A cleanup that fails, or finds no row, leaves the tables.
cleaned-same : (x : Machine) (d : Deps) (db : Db) → AllSettled db → cleaned x d db ≡ db
unfolding cleaned
cleaned-same x d db h = go x.cleanup
  where
    go :
        (fault : Option Text)
        → (cleanup_stale_runs fault
            (codes "karyawan")
            (double_i64 d.cfg.sync_interval)
            x.read_at
            x.now
            db).1
          ≡ db
    go (some e) = unfold cleanup_stale_runs in refl
    go none = ap (λ r. r.1) (cleanup_stale_runs-settled (codes "karyawan") _ x.read_at x.now db h)

file-same :
    (x : Machine) (d : Deps) (cfg : Result Text Config) (db : Db)
    → AllSettled db
    → (with_file x d cfg db).1 ≡ db
unfolding with_file
file-same x d (err e) db h = refl
file-same x d (ok cfg) db h = cleaned-same x d db h

start-same : (x : Machine) (p : Process) → AllSettled p.db → (start x p).1.db ≡ p.db
unfolding start
start-same x p h =
    go (must_run x.settings x.getenv x.boot p.opened).0
      (must_run x.settings x.getenv x.boot p.opened).1
  where
    go : (r : Result Text Deps) (o : Opened) → (with_deps x (r, o) p.db).1.db ≡ p.db
    go (err e) o = unfold with_deps in refl
    go (ok d) o = unfold with_deps in file-same x d _ p.db h

Step-AllSettled : {a b : Db} → Step a b → AllSettled a → AllSettled b
Step-AllSettled {a} (set_up lib x files keys) h =
    main-AllSettled lib x (record { files = files; keys = keys; db = a }) h
Step-AllSettled {a} (started x o) h =
    subst AllSettled (sym (start-same x (record { opened = o; db = a }) h)) h
Step-AllSettled {a} (ran up w s) h =
    unfold run_once in sync_karyawan-AllSettled (client_source up) w s a h
Step-AllSettled {a} (killed_pass up w s m) h =
    killed-AllSettled w s.resource ((client_source up).fetch s.src) m a h

Reach-AllSettled : {a b : Db} → Reach a b → AllSettled a → AllSettled b
Reach-AllSettled here h = h
Reach-AllSettled (later r st) h = Step-AllSettled st (Reach-AllSettled r h)

-- From a database without a row of `sync_runs` in the state 'running', let setup and the
-- synchroniser be run, in any order and whatever they meet, one start or pass after the other, and
-- let passes be killed between any two of their calls. No committed row is ever in that state, so
-- the recovery of stale runs at the next start of the synchroniser changes nothing.
pub start-Reach :
    {a b : Db} (x : Machine) (o : Opened)
    → AllSettled a
    → Reach a b
    → AllSettled b × ((start x (record { opened = o; db = b })).1.db ≡ b)
start-Reach {b} x o h r =
    let settled = Reach-AllSettled r h in
    (settled, start-same x (record { opened = o; db = b }) settled)
