-- ===== src/Sync/Run.antt =====
-- `New`, `SyncKaryawan`, `markRunFailed` and `readWatermark` of internal/sync/sync.go.
use gateway_login.Base.{
  ℕ, ◌+◌, true, false, Option, none, some, List, [], ◌∷◌, ◌++◌, Text, codes, Result, ok, err,
  if◌then◌else◌, ltb, ℤ, pos, leb_ℤ,
}
use gateway_login.Postgres.{Time, unix_epoch}
use gateway_login.Karyawan.Table.{Record, upsert}
use gateway_login.Vps.{KaryawanRow}
use gateway_login.Sync.Store.{
  SyncState, Tables, Db, insert_run, run_failed, run_succeeded, state_failed, state_succeeded, Tx,
  begin, exec, commit, find_state,
}
use gateway_login.Sync.Rows.{raw_payload, marshals, marshal_error, to_karyawan}

-- The interface `Source`, and `BatchSizer` if the source implements it.
pub record Source (S : Type 0) : Type 0 where
  pub fetch : S → Time → Result Text (List KaryawanRow)
  pub sizer : Option (ℤ → S → S)

pub record Syncer (S : Type 0) : Type 0 where
  pub src : S
  pub resource : Text
  pub batch : ℤ

unfoldable pub new : {S : Type 0} → Source S → S → ℤ → Syncer S
new {S} i src batch_size =
    let batch = if leb_ℤ batch_size (pos 0) then pos 500 else batch_size in
    let sized : S = elim i.sizer [ none ↦ src | some set ↦ set batch src ] in
    record { src = sized; resource = codes "karyawan"; batch = batch }

-- The calls of a pass that can fail, or that read the clock.
pub data Call : Type 0 where
  begin_tx lock start_run read_state : Call
  upsert_row : ℕ → Call
  put_watermark finish_run commit_tx : Call
  fail_run fail_state commit_failure : Call

-- What a pass meets: the error of each call, if it fails, the clocks, and the id of the run.
pub record World : Type 0 where
  pub fault : Call → Option Text
  pub clock : Call → Time
  pub run_id : ℕ

pub record Outcome : Type 0 where
  pub count : ℕ
  pub error : Option Text
  pub db : Db

-- Goes on after a statement, on its error or on success.
abbrev pub after : Option Text × Tx → (Text → Tx → Outcome) → (Tx → Outcome) → Outcome
after (some e, tx) bad good = bad e tx
after (none, tx) bad good = good tx

unfoldable pub watermark_or_epoch : Option SyncState → Time
watermark_or_epoch none = unix_epoch
watermark_or_epoch (some s) = elim s.watermark [ none ↦ unix_epoch | some t ↦ t ]

-- The watermark as committed: no row, or no watermark in it, is the Unix epoch.
unfoldable pub watermark_in : Text → Tables → Time
unfolding watermark_or_epoch
watermark_in resource t = watermark_or_epoch (find_state resource t.states)

abbrev pub watermark_of : Text → Db → Time
watermark_of resource db = watermark_in resource db.tables

-- It is read through the pool, outside the transaction.
unfoldable pub read_watermark : Option Text → Text → Db → Result Text Time
read_watermark (some e) resource db = err (codes "read watermark: " ++ e)
read_watermark none resource db = ok (watermark_of resource db)

-- `if r.UpdatedAt.After(maxTs) { maxTs = r.UpdatedAt }`
abbrev pub later : Time → Time → Time
later max_ts t = if ltb max_ts t then t else max_ts

-- The loop over the fetched rows: each upsert is committed on its own, through the pool.
pub data Pull : Type 0 where
  done : ℕ → Time → List Record → Pull
  stopped : Text → List Record → Pull

unfoldable pub pull : World → ℕ → List KaryawanRow → ℕ → Time → List Record → Pull
pull w i [] upserted max_ts t = done upserted max_ts t
pull w i (r ∷ rs) upserted max_ts t = elim (marshals (raw_payload r)) [
  | false ↦
      stopped (codes "marshal raw_payload for " ++ r.nik_hris ++ codes ": " ++ marshal_error) t
  | true ↦ elim (w.fault (upsert_row i)) [
    | some e ↦ stopped (codes "upsert " ++ r.nik_hris ++ codes ": " ++ e) t
    | none ↦
        pull w (i + 1) rs (upserted + 1) (later max_ts r.updated_at)
          (upsert (w.clock (upsert_row i)) (to_karyawan r) t)
  ]
]

module _ (w : World) (resource : Text) where
  -- The errors of both statements are dropped.
  unfoldable pub mark_run_failed : Text → Tx → Tx
  mark_run_failed cause tx =
      let tx1 = (exec (w.fault fail_run) (run_failed w.run_id (w.clock fail_run) cause) tx).1 in
      (exec (w.fault fail_state) (state_failed resource (w.clock fail_state) cause) tx1).1

  -- Marks the run failed, commits, and returns the cause.
  unfoldable pub give_up : Text → Tx → Db → Outcome
  give_up cause tx db = record {
    count = 0;
    error = some cause;
    db = (commit (w.fault commit_failure) (mark_run_failed cause tx) db).1;
  }

  -- The commit of a pass that succeeded.
  unfoldable pub conclude : ℕ → Tx → Db → Outcome
  conclude upserted tx db =
      let (e, db') = commit (w.fault commit_tx) tx db in
      record {
        count = upserted;
        error = elim e [ none ↦ none | some c ↦ some (codes "commit sync tx: " ++ c) ];
        db = db';
      }

  -- The update of the run's row; if it fails, the transaction is committed all the same.
  unfoldable pub close_run : ℕ → Tx → Db → Outcome
  close_run upserted tx db =
      after (exec (w.fault finish_run) (run_succeeded w.run_id (w.clock finish_run) upserted) tx)
        (λ e tx1. record {
          count = upserted;
          error = some (codes "finalize sync_run: " ++ e);
          db = (commit (w.fault commit_tx) tx1 db).1;
        })
        (λ tx1. conclude upserted tx1 db)

  unfoldable pub finish : ℕ → Time → Tx → Db → Outcome
  finish upserted max_ts tx db =
      after
        (exec (w.fault put_watermark) (state_succeeded resource max_ts (w.clock put_watermark)) tx)
        (λ e tx1. give_up (codes "update sync_state: " ++ e) tx1 db)
        (λ tx1. close_run upserted tx1 db)

  unfoldable pub finish_pull : Pull → Tx → Db → Outcome
  finish_pull (stopped cause t) tx db = give_up cause tx (record db { karyawan = t })
  finish_pull (done upserted max_ts t) tx db =
      finish upserted max_ts tx (record db { karyawan = t })

  unfoldable pub with_rows : Time → Result Text (List KaryawanRow) → Tx → Db → Outcome
  with_rows watermark (err e) tx db = give_up (codes "fetch from source: " ++ e) tx db
  with_rows watermark (ok rows) tx db = finish_pull (pull w 0 rows 0 watermark db.karyawan) tx db

  unfoldable pub with_watermark :
      (Time → Result Text (List KaryawanRow)) → Result Text Time → Tx → Db → Outcome
  with_watermark fetch (err e) tx db = give_up (codes "read watermark: " ++ e) tx db
  with_watermark fetch (ok watermark) tx db = with_rows watermark (fetch watermark) tx db

  -- Before the watermark is read an error leaves the transaction to its rollback.
  unfoldable pub start : (Time → Result Text (List KaryawanRow)) → Tx → Db → Outcome
  start fetch tx db =
      after (exec (w.fault start_run) (insert_run w.run_id resource (w.clock start_run)) tx)
        (λ e tx1. record { count = 0; error = some (codes "insert sync_run: " ++ e); db = db })
        (λ tx1. with_watermark fetch (read_watermark (w.fault read_state) resource db) tx1 db)

  unfoldable pub take_lock : (Time → Result Text (List KaryawanRow)) → Tx → Db → Outcome
  take_lock fetch tx db =
      after (exec (w.fault lock) (λ t. t) tx)
        (λ e tx1. record {
          count = 0;
          error = some (codes "acquire advisory lock: " ++ e);
          db = db;
        })
        (λ tx1. start fetch tx1 db)

  unfoldable pub open_tx : Option Text → (Time → Result Text (List KaryawanRow)) → Db → Outcome
  open_tx (some e) fetch db = record {
    count = 0;
    error = some (codes "begin lock tx: " ++ e);
    db = db;
  }
  open_tx none fetch db = take_lock fetch (begin db) db

unfoldable pub sync_karyawan : {S : Type 0} → Source S → World → Syncer S → Db → Outcome
sync_karyawan i w s db = open_tx w s.resource (w.fault begin_tx) (i.fetch s.src) db
