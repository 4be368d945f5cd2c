-- ===== src/Commands/Sync/Lives.antt =====
-- cmd/sync/main.go over its whole life: it starts, its passes run, it ends or is killed, and it is
-- started again; and cmd/setup between two such lives.
use mathlib.Core.Path.{subst}
use gateway_login.Base.{
  ℕ, ◌≡◌, sym, ◌∙◌, Bool, Option, none, some, List, Text, codes, Result, ok, err, ℤ, pos, negsuc,
  arith, pos_part, double_i64,
}
use gateway_login.Postgres.{Time}
use gateway_login.ApiKey.{KeyRow}
use gateway_login.Setup.{Libraries, Files, Written}
use gateway_login.Commands.Source.{Upstream, client_source}
use gateway_login.Commands.Setup
use gateway_login.Commands.Setup.Keeps.{flow, main-keeps}
use gateway_login.Stored.{Config}
use gateway_login.Vps.{KaryawanRow, Client, Faults}
use gateway_login.Bootstrap.{Opened, Deps, must_run}
use gateway_login.Sync.Store.{Db}
use gateway_login.Sync.Cleanup.{cleanup_stale_runs}
use gateway_login.Sync.Run.{World, new, sync_karyawan, watermark_in, watermark_of}
use gateway_login.Sync.Mirror.{IsTable}
use gateway_login.Sync.Mirror.Coverage.{IsCovered, IsCleanCut}
use gateway_login.Sync.Interleaving.{Passes}
use gateway_login.Sync.Interleaving.Covered.{over_vps, pass-IsComplete, Reach-IsComplete}
use gateway_login.Commands.Sync.{Machine, Started, Process, start, with_deps, with_file, cleaned}
use gateway_login.Commands.Sync.Start.{start-IsStarted, size_or_default, new-sized}
use gateway_login.Commands.Sync.Service
use gateway_login.Commands.Sync.Service.{Service, IsOver, Reach-passes}

abbrev karyawan : Text
karyawan = codes "karyawan"

-- The mirror is complete up to the watermark.
abbrev pub IsComplete : List KaryawanRow → Db → Type 0
IsComplete table db = IsCovered table (watermark_of karyawan db) db.karyawan

-- The recovery of stale runs leaves the mirror and the watermarks.
cleanup-IsComplete :
    (table : List KaryawanRow) (fault : Option Text) (stale : ℤ) (read_at now : Time) (db : Db)
    → IsComplete table db
    → IsComplete table (cleanup_stale_runs fault karyawan stale read_at now db).1
unfolding cleanup_stale_runs watermark_in
cleanup-IsComplete table (some e) stale read_at now db h = h
cleanup-IsComplete table none stale read_at now db h = h

file-IsComplete :
    (table : List KaryawanRow) (x : Machine) (d : Deps) (cfg : Result Text Config) (db : Db)
    → IsComplete table db
    → IsComplete table (with_file x d cfg db).1
unfolding with_file cleaned
file-IsComplete table x d (err e) db h = h
file-IsComplete table x d (ok cfg) db h =
    cleanup-IsComplete table x.cleanup (double_i64 d.cfg.sync_interval) x.read_at x.now db h

start-IsComplete :
    (table : List KaryawanRow) (x : Machine) (p : Process)
    → IsComplete table p.db
    → IsComplete table (start x p).1.db
unfolding start
start-IsComplete table x p h =
    go (must_run x.settings x.getenv x.boot p.opened).0
      (must_run x.settings x.getenv x.boot p.opened).1
  where
    go : (r : Result Text Deps) (o : Opened) → IsComplete table (with_deps x (r, o) p.db).1.db
    go (err e) o = unfold with_deps in h
    go (ok d) o = unfold with_deps in file-IsComplete table x d _ p.db h

size_or_default_idem : (n : ℤ) → size_or_default n ≡ size_or_default (size_or_default n)
size_or_default_idem (pos n) = ground arith
size_or_default_idem (negsuc n) = ground arith

module _ (le : Text → Text → Bool) (table : List KaryawanRow) where
  -- The passes of a process that has started: one syncer, and for each pass what it meets.
  abbrev pub passes_of : Started → (ℕ → Faults) → (ℕ → World) → Passes Client
  passes_of st faults world =
      over_vps le table st.syncer.resource faults (λ i. st.syncer.src) (λ i. st.syncer.batch) world

  -- The databases between two processes, whose batch sizes all meet `Allowed`: that of the
  -- environment for the synchroniser, that of the written configuration for setup.
  pub data Lives (Allowed : ℤ → Type 0) (db : Db) : Db → Type 0 where
    here : Lives Allowed db db
    failed :
        {d : Db} (x : Machine) (o : Opened) (e : Text) (q : Process)
        → Lives Allowed db d
        → start x (record { opened = o; db = d }) ≡ (err e, q)
        → Lives Allowed db q.db
    set_up :
        {d : Db} (lib : Libraries) (x : Setup.Machine) (files : Files) (keys : List KeyRow)
        (faults : Faults)
        → Lives Allowed db d
        → x.upstream ≡ record { le = le; table = table; faults = faults }
        → ((w : Written) (written : Files)
            → flow lib x (record { files = files; keys = keys; db = d }) ≡ (ok w, written)
            → Allowed w.config.sync.batch_size)
        → Lives Allowed db
            (Setup.main lib x (record { files = files; keys = keys; db = d })).system.db
    lived :
        {d : Db} (x : Machine) (o : Opened) (st : Started) (q : Process) (faults : ℕ → Faults)
        (world : ℕ → World) (s : Service)
        → Lives Allowed db d
        → start x (record { opened = o; db = d }) ≡ (ok st, q)
        → Allowed st.deps.cfg.sync_batch_size
        → Service.Reach (passes_of st faults world) q.db s
        → IsOver (passes_of st faults world) s
        → Lives Allowed db s.sys.db

  -- The databases that a reader may find: between two processes, or while one runs.
  pub data Moment (Allowed : ℤ → Type 0) (db : Db) : Db → Type 0 where
    between : {d : Db} → Lives Allowed db d → Moment Allowed db d
    during :
        {d : Db} (x : Machine) (o : Opened) (st : Started) (q : Process) (faults : ℕ → Faults)
        (world : ℕ → World) (s : Service)
        → Lives Allowed db d
        → start x (record { opened = o; db = d }) ≡ (ok st, q)
        → Allowed st.deps.cfg.sync_batch_size
        → Service.Reach (passes_of st faults world) q.db s
        → Moment Allowed db s.sys.db

  -- No LIMIT of an allowed batch size cuts through rows of one time.
  abbrev pub AllClean : (ℤ → Type 0) → Type 0
  AllClean Allowed =
      (size : ℤ) (since : Time)
      → Allowed size
      → IsCleanCut le table since (pos_part (size_or_default size))

  module _ (Allowed : ℤ → Type 0) (keyed : IsTable table) (clean : AllClean Allowed) where
    -- While a process runs, and until the last of its connections is gone.
    life-IsComplete :
        (x : Machine) (o : Opened) (st : Started) (d : Db) (q : Process) (faults : ℕ → Faults)
        (world : ℕ → World) (s : Service)
        → IsComplete table d
        → start x (record { opened = o; db = d }) ≡ (ok st, q)
        → Allowed st.deps.cfg.sync_batch_size
        → Service.Reach (passes_of st faults world) q.db s
        → IsComplete table s.sys.db
    life-IsComplete x o st d q faults world s old starts sized reached =
        let begun = start-IsStarted x (record { opened = o; db = d }) st q starts in
        let complete : IsComplete table q.db =
          subst (λ (r : Result Text Started × Process). IsComplete table r.1.db) starts
            (start-IsComplete table x (record { opened = o; db = d }) old) in
        let limit : size_or_default st.deps.cfg.sync_batch_size ≡ st.syncer.src.batch_size =
          sym begun.batch ∙ sym begun.source in
        subst (λ res. IsCovered table (watermark_of res s.sys.db) s.sys.db.karyawan) begun.resource
          (Reach-IsComplete le table st.syncer.resource faults (λ i. st.syncer.src)
            (λ i. st.syncer.batch) world q.db s.log s.sys keyed
            (λ i since.
              subst (λ n. IsCleanCut le table since (pos_part n)) limit
                (clean st.deps.cfg.sync_batch_size since sized))
            (subst (λ res. IsCovered table (watermark_of res q.db) q.db.karyawan)
              (sym begun.resource) complete)
            (Reach-passes (passes_of st faults world) reached))

    -- The initial synchronisation of setup.
    initial-IsComplete :
        (up : Upstream) (w : World) (faults : Faults) (n : ℤ) (c : Client) (db : Db)
        → up ≡ record { le = le; table = table; faults = faults }
        → Allowed n
        → IsComplete table db
        → IsComplete table
            (sync_karyawan
              (client_source up)
              w
              (new (client_source up) c (size_or_default n))
              db).db
    unfolding new
    initial-IsComplete up w faults n c db over_table allowed old =
        let s = new (client_source up) c (size_or_default n) in
        let limit : size_or_default n ≡ s.src.batch_size =
          size_or_default_idem n ∙ sym (new-sized up c (size_or_default n)) in
        subst (λ (u : Upstream). IsComplete table (sync_karyawan (client_source u) w s db).db)
          (sym over_table)
          (pass-IsComplete le table karyawan (λ i. faults) (λ i. s.src) (λ i. s.batch) (λ i. w)
            keyed
            (λ i since.
              subst (λ m. IsCleanCut le table since (pos_part m)) limit (clean n since allowed))
            0 db old)

    setup-IsComplete :
        (lib : Libraries) (x : Setup.Machine) (s : Setup.System) (faults : Faults)
        → x.upstream ≡ record { le = le; table = table; faults = faults }
        → ((w : Written) (written : Files)
            → flow lib x s ≡ (ok w, written)
            → Allowed w.config.sync.batch_size)
        → IsComplete table s.db
        → IsComplete table (Setup.main lib x s).system.db
    setup-IsComplete lib x s faults over_table allowed old =
        main-keeps lib x (IsComplete table) s old (λ w written at c.
          initial-IsComplete x.upstream x.world faults w.config.sync.batch_size c s.db over_table
            (allowed w written at) old)

    Lives-IsComplete : {a b : Db} → Lives Allowed a b → IsComplete table a → IsComplete table b
    Lives-IsComplete here old = old
    Lives-IsComplete {a} (failed {d} x o e q before fails) old =
        subst (λ (r : Result Text Started × Process). IsComplete table r.1.db) fails
          (start-IsComplete table x (record { opened = o; db = d }) (Lives-IsComplete before old))
    Lives-IsComplete {a} (set_up {d} lib x files keys faults before over_table allowed) old =
        setup-IsComplete lib x (record { files = files; keys = keys; db = d }) faults over_table
          allowed (Lives-IsComplete before old)
    Lives-IsComplete {a} (lived {d} x o st q faults world s before starts sized reached over) old =
        life-IsComplete x o st d q faults world s (Lives-IsComplete before old) starts sized reached

    pub Moment-IsComplete :
        {a b : Db} → Moment Allowed a b → IsComplete table a → IsComplete table b
    Moment-IsComplete (between before) old = Lives-IsComplete before old
    Moment-IsComplete {a} (during {d} x o st q faults world s before starts sized reached) old =
        life-IsComplete x o st d q faults world s (Lives-IsComplete before old) starts sized reached
