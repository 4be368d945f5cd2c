-- ===== src/Sync/Steps/Rest.antt =====
-- The calls of a pass one by one, against the pass as a whole.
use gateway_login.Base.{
  ℕ, ◌+◌, ◌≡◌, refl, Bool, true, false, Option, none, some, List, [], ◌∷◌, ◌++◌, Text, codes,
  Result, ok, err,
}
use gateway_login.Postgres.{Time}
use gateway_login.Karyawan.Table.{Record, upsert}
use gateway_login.Vps.{KaryawanRow}
use gateway_login.Sync.Store.{Db, insert_run, run_succeeded, state_succeeded, Tx, exec, commit}
use gateway_login.Sync.Rows.{raw_payload, marshals, marshal_error, to_karyawan}
use gateway_login.Sync.Run.{
  World, Outcome, after, Pull, done, stopped, pull, later, read_watermark, give_up, conclude,
  close_run, finish, finish_pull, with_rows, with_watermark, start, start_run, read_state,
  upsert_row, put_watermark, finish_run, commit_tx,
}
use gateway_login.Sync.Steps.{
  Work, inserting, reading, fetching, pulling, marking, closing, committing, committing_after,
  failing, Next, moved, commit_error, read_next, fetch_next, pull_next, advance, rest, rest_of,
}

module _ (w : World) (res : Text) (fetch : Time → Result Text (List KaryawanRow)) where
  moved-rest :
      (r : Option Text × Tx) (bad : Text → Tx → Next) (good : Tx → Next) (db : Db)
      → rest_of w res fetch (moved r bad good, db)
        ≡ after r
            (λ e tx. rest_of w res fetch (bad e tx, db))
            (λ tx. rest_of w res fetch (good tx, db))
  moved-rest (some e, tx) bad good db = refl
  moved-rest (none, tx) bad good db = refl

  -- The rows that are already upserted are replaced by those of the whole loop.
  finish_pull-karyawan :
      (l : Pull) (tx : Tx) (db : Db) (t : List Record)
      → finish_pull w res l tx (record db { karyawan = t }) ≡ finish_pull w res l tx db
  unfolding finish_pull
  finish_pull-karyawan (stopped cause u) tx db t = refl
  finish_pull-karyawan (done n max u) tx db t = refl

  module _ (i : ℕ) (r : KaryawanRow) (rs : List KaryawanRow) (n : ℕ) (max : Time) (tx : Tx)
      (db : Db) where
    pull_next-rest :
        (good : Bool) (f : Option Text)
        → rest_of w res fetch (pull_next w res fetch i r rs n max tx db good f)
          ≡ finish_pull w res
              (elim good [
                | false ↦
                    stopped
                      (codes "marshal raw_payload for "
                        ++ r.nik_hris
                        ++ codes ": "
                        ++ marshal_error)
                      db.karyawan
                | true ↦ elim f [
                  | some e ↦ stopped (codes "upsert " ++ r.nik_hris ++ codes ": " ++ e) db.karyawan
                  | none ↦
                      pull w
                        (i + 1)
                        rs
                        (n + 1)
                        (later max r.updated_at)
                        (upsert (w.clock (upsert_row i)) (to_karyawan r) db.karyawan)
                ]
              ])
              tx
              db
    unfolding pull_next rest_of rest
    pull_next-rest false f = unfold finish_pull in refl
    pull_next-rest true (some e) = unfold finish_pull in refl
    pull_next-rest true none =
        finish_pull-karyawan _ tx db (upsert (w.clock (upsert_row i)) (to_karyawan r) db.karyawan)

    pulling-rest :
        rest_of w res fetch (advance w res fetch (pulling i (r ∷ rs) n max tx) db)
        ≡ finish_pull w res (pull w i (r ∷ rs) n max db.karyawan) tx db
    unfolding advance pull
    pulling-rest = pull_next-rest (marshals (raw_payload r)) (w.fault (upsert_row i))

  read_next-rest :
      (r : Result Text Time) (tx : Tx) (db : Db)
      → rest_of w res fetch (read_next w res fetch r tx, db) ≡ with_watermark w res fetch r tx db
  unfolding read_next rest_of rest with_watermark
  read_next-rest (err e) tx db = refl
  read_next-rest (ok mark) tx db = refl

  fetch_next-rest :
      (mark : Time) (r : Result Text (List KaryawanRow)) (tx : Tx) (db : Db)
      → rest_of w res fetch (fetch_next w res fetch mark r tx, db) ≡ with_rows w res mark r tx db
  unfolding fetch_next rest_of rest with_rows
  fetch_next-rest mark (err e) tx db = refl
  fetch_next-rest mark (ok rows) tx db = refl

  commit-conclude :
      (n : ℕ) (r : Option Text × Db)
      → ◌≡◌ {A = Outcome}
          (record { count = n; error = commit_error r.0; db = r.1 })
          (record {
            count = n;
            error = elim r.0 [ none ↦ none | some c ↦ some (codes "commit sync tx: " ++ c) ];
            db = r.1;
          })
  commit-conclude n (none, db) = refl
  commit-conclude n (some e, db) = refl

  -- A step leaves what the pass comes to.
  pub rest_of-advance :
      (k : Work) (db : Db) → rest_of w res fetch (advance w res fetch k db) ≡ rest w res fetch k db
  unfolding advance rest rest_of
  rest_of-advance (inserting tx) db =
      unfold start in
      moved-rest (exec (w.fault start_run) (insert_run w.run_id res (w.clock start_run)) tx) _ _ db
  rest_of-advance (reading tx) db =
      read_next-rest (read_watermark (w.fault read_state) res db) tx db
  rest_of-advance (fetching mark tx) db = fetch_next-rest mark (fetch mark) tx db
  rest_of-advance (pulling i [] n max tx) db = unfold finish_pull pull in refl
  rest_of-advance (pulling i (r ∷ rs) n max tx) db = pulling-rest i r rs n max tx db
  rest_of-advance (marking n max tx) db =
      unfold finish in
      moved-rest (exec (w.fault put_watermark) (state_succeeded res max (w.clock put_watermark)) tx)
        _ _ db
  rest_of-advance (closing n tx) db =
      unfold close_run in
      moved-rest (exec (w.fault finish_run) (run_succeeded w.run_id (w.clock finish_run) n) tx) _ _
        db
  rest_of-advance (committing n tx) db =
      unfold conclude in commit-conclude n (commit (w.fault commit_tx) tx db)
  rest_of-advance (committing_after n cause tx) db = refl
  rest_of-advance (failing cause tx) db = unfold give_up in refl
