-- ===== src/Sync/Steps.antt =====
-- A pass of `SyncKaryawan` (internal/sync/sync.go) that holds the advisory lock, one call at a time,
-- so that other passes can take steps in between.
pub mod Rest
pub mod Returns
pub mod Killed
pub mod Mirrored
mod Tests
use gateway_login.Base.{
  zero, suc, ℕ, ◌+◌, ◌≡◌, refl, Bool, true, false, Option, none, some, List, [], ◌∷◌, ◌++◌, Text,
  codes, Result, ok, err, Bool-cases, inl, inr,
}
use gateway_login.Postgres.{Time}
use gateway_login.Karyawan.Table.{Record, upsert}
use gateway_login.Vps.{KaryawanRow}
use gateway_login.Sync.Store.{
  Tables, Db, insert_run, run_succeeded, state_succeeded, Tx, exec, commit,
}
use gateway_login.Sync.Rows.{raw_payload, marshals, marshal_error, to_karyawan}
use gateway_login.Sync.Run.{
  World, Outcome, after, Pull, done, stopped, pull, later, read_watermark, mark_run_failed, give_up,
  conclude, close_run, finish, finish_pull, with_rows, with_watermark, start, start_run, read_state,
  upsert_row, put_watermark, finish_run, commit_tx, commit_failure,
}

-- Where the pass stands: before the insertion of its run, the read of the watermark, the fetch, the
-- next row, the update of the watermark, that of the run, the commit, or after an error.
pub data Work : Type 0 where
  inserting reading : Tx → Work
  fetching : Time → Tx → Work
  pulling : ℕ → List KaryawanRow → ℕ → Time → Tx → Work
  marking : ℕ → Time → Tx → Work
  closing committing : ℕ → Tx → Work
  committing_after : ℕ → Text → Tx → Work
  failing : Text → Tx → Work

-- The pass goes on, or it has returned.
pub data Next : Type 0 where
  more : Work → Next
  over : ℕ → Option Text → Next

-- After a statement, on its error or on success.
abbrev moved : Option Text × Tx → (Text → Tx → Next) → (Tx → Next) → Next
moved (some e, tx) bad good = bad e tx
moved (none, tx) bad good = good tx

abbrev commit_error : Option Text → Option Text
commit_error none = none
commit_error (some c) = some (codes "commit sync tx: " ++ c)

module _ (w : World) (res : Text) (fetch : Time → Result Text (List KaryawanRow)) where
  read_next : Result Text Time → Tx → Next
  read_next (err e) tx = more (failing (codes "read watermark: " ++ e) tx)
  read_next (ok mark) tx = more (fetching mark tx)

  fetch_next : Time → Result Text (List KaryawanRow) → Tx → Next
  fetch_next mark (err e) tx = more (failing (codes "fetch from source: " ++ e) tx)
  fetch_next mark (ok rows) tx = more (pulling 0 rows 0 mark tx)

  -- One row is upserted, on its own.
  pull_next :
      ℕ → KaryawanRow → List KaryawanRow → ℕ → Time → Tx → Db → Bool → Option Text → Next × Db
  pull_next i r rs n max tx db false fault = (
    more (
        failing (codes "marshal raw_payload for " ++ r.nik_hris ++ codes ": " ++ marshal_error) tx),
    db,
  )
  pull_next i r rs n max tx db true (some e) =
      (more (failing (codes "upsert " ++ r.nik_hris ++ codes ": " ++ e) tx), db)
  pull_next i r rs n max tx db true none = (
    more (pulling (i + 1) rs (n + 1) (later max r.updated_at) tx),
    record db { karyawan = upsert (w.clock (upsert_row i)) (to_karyawan r) db.karyawan },
  )

  unfoldable pub advance : Work → Db → Next × Db
  unfolding read_next fetch_next pull_next
  advance (inserting tx) db = (
    moved (exec (w.fault start_run) (insert_run w.run_id res (w.clock start_run)) tx)
        (λ e tx1. over 0 (some (codes "insert sync_run: " ++ e))) (λ tx1. more (reading tx1)),
    db,
  )
  advance (reading tx) db = (read_next (read_watermark (w.fault read_state) res db) tx, db)
  advance (fetching mark tx) db = (fetch_next mark (fetch mark) tx, db)
  advance (pulling i [] n max tx) db = (more (marking n max tx), db)
  advance (pulling i (r ∷ rs) n max tx) db =
      pull_next i r rs n max tx db (marshals (raw_payload r)) (w.fault (upsert_row i))
  advance (marking n max tx) db = (
    moved (exec (w.fault put_watermark) (state_succeeded res max (w.clock put_watermark)) tx)
        (λ e tx1. more (failing (codes "update sync_state: " ++ e) tx1))
        (λ tx1. more (closing n tx1)),
    db,
  )
  advance (closing n tx) db = (
    moved (exec (w.fault finish_run) (run_succeeded w.run_id (w.clock finish_run) n) tx)
        (λ e tx1. more (committing_after n (codes "finalize sync_run: " ++ e) tx1))
        (λ tx1. more (committing n tx1)),
    db,
  )
  advance (committing n tx) db =
      let (e, db') = commit (w.fault commit_tx) tx db in (over n (commit_error e), db')
  advance (committing_after n cause tx) db =
      (over n (some cause), (commit (w.fault commit_tx) tx db).1)
  advance (failing cause tx) db =
      (over 0 (some cause), (commit (w.fault commit_failure) (mark_run_failed w res cause tx) db).1)

  -- The rest of the pass at once.
  unfoldable pub rest : Work → Db → Outcome
  rest (inserting tx) db = start w res fetch tx db
  rest (reading tx) db =
      with_watermark w res fetch (read_watermark (w.fault read_state) res db) tx db
  rest (fetching mark tx) db = with_rows w res mark (fetch mark) tx db
  rest (pulling i rows n max tx) db = finish_pull w res (pull w i rows n max db.karyawan) tx db
  rest (marking n max tx) db = finish w res n max tx db
  rest (closing n tx) db = close_run w res n tx db
  rest (committing n tx) db = conclude w res n tx db
  rest (committing_after n cause tx) db = record {
    count = n;
    error = some cause;
    db = (commit (w.fault commit_tx) tx db).1;
  }
  rest (failing cause tx) db = give_up w res cause tx db

  -- The same from the next step on.
  unfoldable pub rest_of : Next × Db → Outcome
  unfolding rest
  rest_of (more k, db) = rest k db
  rest_of (over n e, db) = record { count = n; error = e; db = db }

  -- At most `m` calls, as many as there are.
  unfoldable pub steps : ℕ → Next × Db → Next × Db
  steps zero x = x
  steps (suc m) (more k, db) = steps m (advance k db)
  steps (suc m) (over n e, db) = (over n e, db)
