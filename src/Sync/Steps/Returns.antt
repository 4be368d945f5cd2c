-- ===== src/Sync/Steps/Returns.antt =====
-- A pass that holds the lock, up to its return.
use gateway_login.Base.{
  ℕ, ◌+◌, ◌≡◌, refl, sym, ap, ◌∙◌, zero, suc, Bool, true, false, Option, none, some, List, [], ◌∷◌,
  Text, Result, ok, err,
}
use gateway_login.Postgres.{Time}
use gateway_login.Vps.{KaryawanRow}
use gateway_login.Sync.Store.{Db, insert_run, run_succeeded, state_succeeded, Tx, exec}
use gateway_login.Sync.Rows.{raw_payload, marshals}
use gateway_login.Sync.Run.{
  World, Outcome, later, read_watermark, start, start_run, read_state, upsert_row, put_watermark,
  finish_run,
}
use gateway_login.Sync.Steps.{
  Work, inserting, reading, fetching, pulling, marking, closing, committing, committing_after,
  failing, Next, more, over, moved, read_next, fetch_next, pull_next, advance, rest, rest_of, steps,
}
use gateway_login.Sync.Steps.Rest.{rest_of-advance}

module _ (w : World) (res : Text) (fetch : Time → Result Text (List KaryawanRow)) where
  -- The pass returns after some number of calls.
  abbrev Ends : Next × Db → Type 0
  Ends x =
      (m : ℕ) × (n : ℕ) × (e : Option Text) × (d : Db) × (steps w res fetch m x ≡ (over n e, d))

  over-Ends : (n : ℕ) (e : Option Text) (d : Db) → Ends (over n e, d)
  unfolding steps
  over-Ends n e d = (0, n, e, d, refl)

  more-Ends : (k : Work) (db : Db) → Ends (advance w res fetch k db) → Ends (more k, db)
  unfolding steps
  more-Ends k db (m, n, e, d, h) = (suc m, n, e, d, h)

  moved-Ends :
      (r : Option Text × Tx) (bad : Text → Tx → Next) (good : Tx → Next) (db : Db)
      → ((e : Text) (tx : Tx) → Ends (bad e tx, db))
      → ((tx : Tx) → Ends (good tx, db))
      → Ends (moved r bad good, db)
  moved-Ends (some e, tx) bad good db on_error on_success = on_error e tx
  moved-Ends (none, tx) bad good db on_error on_success = on_success tx

  failing-Ends : (cause : Text) (tx : Tx) (db : Db) → Ends (more (failing cause tx), db)
  unfolding advance
  failing-Ends cause tx db = more-Ends (failing cause tx) db (over-Ends 0 (some cause) _)

  closing-Ends : (n : ℕ) (tx : Tx) (db : Db) → Ends (more (closing n tx), db)
  unfolding advance
  closing-Ends n tx db = more-Ends (closing n tx) db (
      moved-Ends (exec (w.fault finish_run) (run_succeeded w.run_id (w.clock finish_run) n) tx) _ _
        db (λ e tx1. more-Ends (committing_after n _ tx1) db (over-Ends n _ _))
        (λ tx1. more-Ends (committing n tx1) db (over-Ends n _ _)))

  marking-Ends : (n : ℕ) (max : Time) (tx : Tx) (db : Db) → Ends (more (marking n max tx), db)
  unfolding advance
  marking-Ends n max tx db = more-Ends (marking n max tx) db (
      moved-Ends (exec (w.fault put_watermark) (state_succeeded res max (w.clock put_watermark)) tx)
        _ _ db (λ e tx1. failing-Ends _ tx1 db) (λ tx1. closing-Ends n tx1 db))

  pulling-Ends :
      (rs : List KaryawanRow) (i n : ℕ) (max : Time) (tx : Tx) (db : Db)
      → Ends (more (pulling i rs n max tx), db)
  unfolding advance
  pulling-Ends [] i n max tx db = more-Ends (pulling i [] n max tx) db (marking-Ends n max tx db)
  pulling-Ends (r ∷ rs) i n max tx db = more-Ends (pulling i (r ∷ rs) n max tx) db (
      go (λ d. pulling-Ends rs (i + 1) (n + 1) (later max r.updated_at) tx d)
        (marshals (raw_payload r)) (w.fault (upsert_row i)))
    where
      go :
          ((d : Db) → Ends (more (pulling (i + 1) rs (n + 1) (later max r.updated_at) tx), d))
          → (good : Bool) (f : Option Text) → Ends (pull_next w res fetch i r rs n max tx db good f)
      go next false f = unfold pull_next in failing-Ends _ tx db
      go next true (some e) = unfold pull_next in failing-Ends _ tx db
      go next true none = unfold pull_next in next _

  fetching-Ends : (mark : Time) (tx : Tx) (db : Db) → Ends (more (fetching mark tx), db)
  unfolding advance
  fetching-Ends mark tx db = more-Ends (fetching mark tx) db (go (fetch mark))
    where
      go : (r : Result Text (List KaryawanRow)) → Ends (fetch_next w res fetch mark r tx, db)
      go (err e) = unfold fetch_next in failing-Ends _ tx db
      go (ok rows) = unfold fetch_next in pulling-Ends rows 0 0 mark tx db

  reading-Ends : (tx : Tx) (db : Db) → Ends (more (reading tx), db)
  unfolding advance
  reading-Ends tx db = more-Ends (reading tx) db (go (read_watermark (w.fault read_state) res db))
    where
      go : (r : Result Text Time) → Ends (read_next w res fetch r tx, db)
      go (err e) = unfold read_next in failing-Ends _ tx db
      go (ok mark) = unfold read_next in fetching-Ends mark tx db

  inserting-Ends : (tx : Tx) (db : Db) → Ends (more (inserting tx), db)
  unfolding advance
  inserting-Ends tx db = more-Ends (inserting tx) db (
      moved-Ends (exec (w.fault start_run) (insert_run w.run_id res (w.clock start_run)) tx) _ _ db
        (λ e tx1. over-Ends 0 _ db) (λ tx1. reading-Ends tx1 db))

  pub rest_of-steps :
      (m : ℕ) (x : Next × Db) → rest_of w res fetch (steps w res fetch m x) ≡ rest_of w res fetch x
  unfolding steps rest_of
  rest_of-steps zero x = refl
  rest_of-steps (suc m) (more k, db) =
      rest_of-steps m (advance w res fetch k db) ∙ rest_of-advance w res fetch k db
  rest_of-steps (suc m) (over n e, db) = refl

  -- A pass that has the lock returns after finitely many calls, whatever they meet, with the count,
  -- the error and the database of SyncKaryawan from that point on.
  pub steps-start :
      (tx : Tx) (db : Db)
      → (m : ℕ) × (steps w res fetch m (more (inserting tx), db) ≡ (
        over (start w res fetch tx db).count (start w res fetch tx db).error,
        (start w res fetch tx db).db,
      ))
  steps-start tx db =
      let (m, n, e, d, h) = inserting-Ends tx db in
      let same : record { count = n; error = e; db = d } ≡ start w res fetch tx db =
        unfold rest_of rest in
        (ap (rest_of w res fetch) (sym h) ∙ rest_of-steps m (more (inserting tx), db)) in
      (m, h ∙ ap (λ (o : Outcome). (over o.count o.error, o.db)) same)
