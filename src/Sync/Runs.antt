-- ===== src/Sync/Runs.antt =====
-- The rows of `sync_runs` after a pass of SyncKaryawan.
use mathlib.Core.List.{Memᴰ}
use mathlib.Core.List.Memᴰ
use mathlib.Core.Path.{subst}
use gateway_login.Base.{
  ℕ, ◌≡◌, ◌≢◌, refl, ap, false, Option, none, some, List, [], ◌∷◌, Text, ◌⊎◌, inl, inr, arith,
  Bool-cases, if◌then◌else◌, Result, ok, err, ◌==◌,
}
use gateway_login.Postgres.{Time}
use gateway_login.Vps.{KaryawanRow}
use gateway_login.Sync.Store.{
  running, SyncRun, Tables, Db, new_run, Tx, begin, exec, state_failed, state_succeeded, insert_run,
  update_run, run_failed, run_succeeded,
}
use gateway_login.Sync.Run.{
  Source, Syncer, World, Pull, done, stopped, pull, mark_run_failed, give_up, conclude, close_run,
  start, take_lock, open_tx, finish, finish_pull, with_rows, with_watermark, sync_karyawan,
  fail_run, fail_state, put_watermark, finish_run, commit_tx, commit_failure, begin_tx, lock,
  start_run,
}
use gateway_login.Sync.Statements.{exec_rule, after_rule, commit_rule, commit-aborted}

-- Each row stood there before, or is not running.
abbrev pub Settled : Tables → Tables → Type 0
Settled old t = (r : SyncRun) → Memᴰ r t.runs → Memᴰ r old.runs ⊎ (r.status ≢ running)

-- The same, but for the row of the pass itself.
abbrev Pending : ℕ → Tables → Tables → Type 0
Pending id old t =
    (r : SyncRun) → Memᴰ r t.runs → Memᴰ r old.runs ⊎ (r.status ≢ running) ⊎ (r.id ≡ id)

insert_run-Pending :
    (id : ℕ) (res : Text) (at : Time) (old t : Tables)
    → Settled old t
    → Pending id old (insert_run id res at t)
unfolding insert_run
insert_run-Pending id res at old t h r m = pick (Memᴰ.append_cases t.runs m)
  where
    pick :
        Memᴰ r t.runs ⊎ Memᴰ r (new_run id res at ∷ [])
        → Memᴰ r old.runs ⊎ (r.status ≢ running) ⊎ (r.id ≡ id)
    pick (inl l) = elim (h r l) [ inl a ↦ inl a | inr b ↦ inr (inl b) ]
    pick (inr l) = inr (inr (ap (λ (x : SyncRun). x.id) (Memᴰ.eq_of_singleton l)))

-- Setting the state of the pass's own row settles the table.
update_run-Settled :
    (id : ℕ) (set : SyncRun → SyncRun) (old t : Tables)
    → ((r : SyncRun) → (set r).status ≢ running)
    → Pending id old t
    → Settled old (update_run id set t)
unfolding update_run
update_run-Settled id set old t stops h r m = go (Memᴰ.of_map _ t.runs m)
  where
    own :
        (x : SyncRun)
        → (x.id == id) ≡ false
        → Memᴰ x old.runs ⊎ (x.status ≢ running) ⊎ (x.id ≡ id)
        → Memᴰ x old.runs ⊎ (x.status ≢ running)
    own x other (inl a) = inl a
    own x other (inr (inl b)) = inr b
    own x other (inr (inr e)) = absurd (ground (arith, other, e))

    settle :
        (x : SyncRun)
        → Memᴰ x t.runs
        → Memᴰ (if x.id == id then set x else x) old.runs
          ⊎ ((if x.id == id then set x else x).status ≢ running)
    settle x l = elim (Bool-cases (x.id == id)) [
      | inl same ↦ rw same (inr (stops x))
      | inr other ↦ rw other (own x other (h x l))
    ]

    go :
        (x : SyncRun) × Memᴰ x t.runs × ((if x.id == id then set x else x) ≡ r)
        → Memᴰ r old.runs ⊎ (r.status ≢ running)
    go (x, l, e) = rw (← e) (settle x l)

module _ (w : World) (res : Text) (old : Tables) where
  -- In an open transaction the run's row is settled by either of its updates.
  mark_run_failed-Settled :
      (cause : Text) (tx : Tx)
      → (tx.aborted ≡ false → Pending w.run_id old tx.tables)
      → (mark_run_failed w res cause tx).aborted ≡ false
      → Settled old (mark_run_failed w res cause tx).tables
  unfolding mark_run_failed
  mark_run_failed-Settled cause tx h =
      let stmt = run_failed w.run_id (w.clock fail_run) cause in
      let tx1 = (exec (w.fault fail_run) stmt tx).1 in
      let settled : tx1.aborted ≡ false → Settled old tx1.tables =
        exec_rule stmt tx (λ u. u.aborted ≡ false → Settled old u.tables) (w.fault fail_run)
          (λ u closed same opened. absurd (cc))
          (λ opened _.
            unfold run_failed in
            update_run-Settled w.run_id _ old tx.tables (λ r e. cc) (h opened)) in
      exec_rule (state_failed res (w.clock fail_state) cause) tx1
        (λ u. u.aborted ≡ false → Settled old u.tables) (w.fault fail_state)
        (λ u closed same opened. absurd (cc)) (λ opened _. unfold state_failed in settled opened)

  give_up-Settled :
      (cause : Text) (tx : Tx) (db : Db)
      → Settled old db.tables
      → (tx.aborted ≡ false → Pending w.run_id old tx.tables)
      → Settled old (give_up w res cause tx db).db.tables
  unfolding give_up
  give_up-Settled cause tx db h p =
      commit_rule (mark_run_failed w res cause tx) db (λ r. Settled old r.1.tables)
        (w.fault commit_failure) (λ e. h) (mark_run_failed-Settled cause tx p)

  close_run-Settled :
      (n : ℕ) (tx : Tx) (db : Db)
      → Settled old db.tables
      → Pending w.run_id old tx.tables
      → Settled old (close_run w res n tx db).db.tables
  unfolding close_run
  close_run-Settled n tx db h p =
      after_rule (run_succeeded w.run_id (w.clock finish_run) n) tx (λ o. Settled old o.db.tables)
        (w.fault finish_run) _ _
        (λ e tx' closed same. rw (commit-aborted tx' db (w.fault commit_tx) closed) h)
        (λ opened.
          unfold conclude in
          commit_rule _ db (λ r. Settled old r.1.tables) (w.fault commit_tx) (λ e. h)
            (λ _.
              unfold run_succeeded in update_run-Settled w.run_id _ old tx.tables (λ r e. cc) p))

  finish-Settled :
      (n : ℕ) (m : Time) (tx : Tx) (db : Db)
      → Settled old db.tables
      → Pending w.run_id old tx.tables
      → Settled old (finish w res n m tx db).db.tables
  unfolding finish state_succeeded
  finish-Settled n m tx db h p =
      after_rule (state_succeeded res m (w.clock put_watermark)) tx (λ o. Settled old o.db.tables)
        (w.fault put_watermark) _ _
        (λ e tx' closed same. give_up-Settled _ tx' db h (λ opened. absurd (cc)))
        (λ opened. close_run-Settled n _ db h p)

  module _ (tx : Tx) (db : Db) (h : Settled old db.tables)
      (p : Pending w.run_id old tx.tables) where
    with_rows-Settled :
        (mark : Time) (fetched : Result Text (List KaryawanRow))
        → Settled old (with_rows w res mark fetched tx db).db.tables
    unfolding with_rows
    with_rows-Settled mark (err e) = give_up-Settled _ tx db h (λ _. p)
    with_rows-Settled mark (ok rows) = go (pull w 0 rows 0 mark db.karyawan)
      where
        go : (l : Pull) → Settled old (finish_pull w res l tx db).db.tables
        go (stopped cause t) =
            unfold finish_pull in give_up-Settled cause tx (record db { karyawan = t }) h (λ _. p)
        go (done n m t) =
            unfold finish_pull in finish-Settled n m tx (record db { karyawan = t }) h p

    with_watermark-Settled :
        (fetch : Time → Result Text (List KaryawanRow)) (mark : Result Text Time)
        → Settled old (with_watermark w res fetch mark tx db).db.tables
    unfolding with_watermark
    with_watermark-Settled fetch (err e) = give_up-Settled _ tx db h (λ _. p)
    with_watermark-Settled fetch (ok mark) = with_rows-Settled mark (fetch mark)

module _ (w : World) (res : Text) (fetch : Time → Result Text (List KaryawanRow)) (db : Db) where
  before : Settled db.tables db.tables
  before r m = inl m

  pub start-Settled :
      (tx : Tx) → tx.tables ≡ db.tables → Settled db.tables (start w res fetch tx db).db.tables
  unfolding start
  start-Settled tx e =
      after_rule (insert_run w.run_id res (w.clock start_run)) tx
        (λ o. Settled db.tables o.db.tables) (w.fault start_run) _ _ (λ e tx' closed same. before)
        (λ opened.
          with_watermark-Settled w res db.tables _ db before
            (insert_run-Pending w.run_id res _ db.tables tx.tables
              (λ r m. inl (subst (λ (t : Tables). Memᴰ r t.runs) e m)))
            fetch _)

  open_tx-Settled :
      (fault : Option Text) → Settled db.tables (open_tx w res fault fetch db).db.tables
  unfolding open_tx take_lock
  open_tx-Settled (some e) = before
  open_tx-Settled none =
      after_rule (λ t. t) (begin db) (λ o. Settled db.tables o.db.tables) (w.fault lock) _ _
        (λ e tx' closed same. before) (λ opened. start-Settled _ refl)

-- After any pass, whatever failed in it, each committed row of `sync_runs` stood there before the
-- pass or is not in the state 'running'.
pub sync_karyawan-Settled :
    {S : Type 0} (i : Source S) (w : World) (s : Syncer S) (db : Db)
    → Settled db.tables (sync_karyawan i w s db).db.tables
unfolding sync_karyawan
sync_karyawan-Settled i w s db = open_tx-Settled w s.resource (i.fetch s.src) db (w.fault begin_tx)

-- No committed row of `sync_runs` is in the state 'running'.
abbrev pub AllSettled : Db → Type 0
AllSettled db = (r : SyncRun) → Memᴰ r db.tables.runs → r.status ≢ running

pub sync_karyawan-AllSettled :
    {S : Type 0} (i : Source S) (w : World) (s : Syncer S) (db : Db)
    → AllSettled db
    → AllSettled (sync_karyawan i w s db).db
sync_karyawan-AllSettled i w s db h r m = elim (sync_karyawan-Settled i w s db r m) [
  | inl old ↦ h r old
  | inr ended ↦ ended
]
