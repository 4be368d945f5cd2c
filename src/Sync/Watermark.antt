-- ===== src/Sync/Watermark.antt =====
-- What a pass does to the watermark, whatever fails on the way.
mod Marks
use gateway_login.Base.{
  ℕ, ◌+◌, ◌≡◌, refl, ap, ◌∙◌, Option, none, some, List, [], ◌∷◌, Text, text_eq, inl, inr, arith,
  Bool-cases, Option-cases, if◌then◌else◌, Result, ok, err, length, codes, ◌++◌,
}
use gateway_login.Postgres.{Time}
use gateway_login.Karyawan.Table.{Record, upsert}
use gateway_login.Vps.{KaryawanRow}
use gateway_login.Sync.Store.{
  SyncRun, Tables, Db, Tx, begin, exec, state_failed, state_succeeded, insert_run, update_run,
  run_failed, run_succeeded,
}
use gateway_login.Sync.Run.{
  watermark_in, watermark_of, read_watermark, Source, Syncer, World, Outcome, Pull, done, stopped,
  pull, mark_run_failed, give_up, conclude, close_run, start, take_lock, open_tx, finish,
  finish_pull, with_rows, with_watermark, sync_karyawan, fail_run, fail_state, put_watermark,
  finish_run, commit_tx, commit_failure, upsert_row, later, begin_tx, lock, start_run, read_state,
}
use gateway_login.Sync.Rows.{raw_payload, marshals, to_karyawan}
use gateway_login.Sync.Statements.{
  watermark_in-state_failed, watermark_in-state_succeeded, exec_rule, after_rule, commit_rule,
  commit-aborted,
}
use gateway_login.Sync.Watermark.Marks.{
  SameMarks, SameMarks-insert_run, SameMarks-run_succeeded, mark_run_failed-SameMarks,
}

-- The newest of a time and the `updated_at` of rows.
unfoldable pub newest : Time → List KaryawanRow → Time
newest m [] = m
newest m (r ∷ rs) = newest (later m r.updated_at) rs

-- The mirror after an upsert of each row, the first of them being the i-th of its pass.
unfoldable pub upserts : World → ℕ → List KaryawanRow → List Record → List Record
upserts w i [] t = t
upserts w i (r ∷ rs) t = upserts w (i + 1) rs (upsert (w.clock (upsert_row i)) (to_karyawan r) t)

-- A pass over the rows that was not stopped has counted them, found the newest, and stored each.
pub pull-done :
    (w : World) (i : ℕ) (rows : List KaryawanRow) (n : ℕ) (m : Time) (t : List Record) {n' : ℕ}
    {m' : Time} {t' : List Record}
    → pull w i rows n m t ≡ done n' m' t'
    → (n' ≡ n + length rows) × (m' ≡ newest m rows) × (t' ≡ upserts w i rows t)
unfolding pull newest upserts
pull-done w i [] n m t h = (ground arith, cc, cc)
pull-done w i (r ∷ rs) n m t h = elim (Bool-cases (marshals (raw_payload r))) [
  | inl fits ↦ elim (Option-cases (w.fault (upsert_row i))) [
    | inl fine ↦
        let (a, b, c) = pull-done w (i + 1) rs (n + 1) _ _ (rw (fits, fine, pull) at h) in
        (omega arith, b, c)
    | inr (e, broken) ↦ absurd (cc (rw (fits, broken, pull) at h))
  ]
  | inr unfit ↦ absurd (cc (rw (unfit, pull) at h))
]

module _ (w : World) (res : Text) where
  module _ (db : Db) where
    -- What a pass over `rows` that began with the committed `db` may end in.
    pub record Kept (fetched : Result Text (List KaryawanRow)) (o : Outcome) : Type 0 where
      pub failure : (e : Text) → o.error ≡ some e → SameMarks o.db.tables db.tables
      pub success :
          o.error ≡ none
          → (rows : List KaryawanRow) × (fetched ≡ ok rows)
            × (o.count ≡ length rows)
            × (o.db.karyawan ≡ upserts w 0 rows db.karyawan)
            × ((q : Text)
                → watermark_of q o.db ≡ (
                    if text_eq res q then newest (watermark_of res db) rows else watermark_of q db))

    -- A transaction whose tables have the new watermark.
    abbrev HasNew : List KaryawanRow → Tables → Type 0
    HasNew rows t =
        (q : Text)
        → watermark_in q t
          ≡ (if text_eq res q then newest (watermark_of res db) rows else watermark_of q db)

    module _ (fetched : Result Text (List KaryawanRow)) where
      Kept-failed :
          (n : ℕ) (e : Text) (db' : Db)
          → SameMarks db'.tables db.tables
          → Kept fetched (record { count = n; error = some e; db = db' })
      Kept-failed n e db' h = record { failure = λ _ _. h; success = λ none_there. absurd (cc) }

      give_up-Kept :
          (cause : Text) (tx : Tx) (db' : Db)
          → SameMarks db'.tables db.tables
          → SameMarks tx.tables db.tables
          → Kept fetched (give_up w res cause tx db')
      unfolding give_up
      give_up-Kept cause tx db' h k =
          let tx' = mark_run_failed w res cause tx in
          Kept-failed 0 cause _ (
            commit_rule tx' db' (λ r. SameMarks r.1.tables db.tables) (w.fault commit_failure)
              (λ e. h) (λ opened q. mark_run_failed-SameMarks w res cause tx q ∙ k q))

      module _ (rows : List KaryawanRow) (db' : Db) (got : fetched ≡ ok rows)
          (h : SameMarks db'.tables db.tables)
          (all_stored : db'.karyawan ≡ upserts w 0 rows db.karyawan) where
        conclude-Kept :
            (tx : Tx) → HasNew rows tx.tables → Kept fetched (conclude w res (length rows) tx db')
        unfolding conclude
        conclude-Kept tx k =
            commit_rule tx db'
              (λ r. Kept fetched (record {
                count = length rows;
                error = elim r.0 [ none ↦ none | some c ↦ some (codes "commit sync tx: " ++ c) ];
                db = r.1;
              }))
              (w.fault commit_tx) (λ e. Kept-failed (length rows) _ db' h)
              (λ opened. record {
                failure = λ e p. absurd (cc);
                success = λ _. (rows, got, refl, all_stored, k);
              })

        close_run-Kept :
            (tx : Tx) → HasNew rows tx.tables → Kept fetched (close_run w res (length rows) tx db')
        unfolding close_run
        close_run-Kept tx k =
            after_rule (run_succeeded w.run_id (w.clock finish_run) (length rows)) tx (Kept fetched)
              (w.fault finish_run) _ _
              (λ e tx' closed same.
                Kept-failed (length rows) _ _
                  (rw (commit-aborted tx' db' (w.fault commit_tx) closed) h))
              (λ opened. conclude-Kept _ (λ q. SameMarks-run_succeeded _ _ _ tx.tables q ∙ k q))

        finish-Kept :
            (tx : Tx)
            → SameMarks tx.tables db.tables
            → Kept fetched (finish w res (length rows) (newest (watermark_of res db) rows) tx db')
        unfolding finish
        finish-Kept tx k =
            after_rule
              (state_succeeded res (newest (watermark_of res db) rows) (w.clock put_watermark)) tx
              (Kept fetched) (w.fault put_watermark) _ _
              (λ e tx' closed same. give_up-Kept _ tx' db' h (λ q. ap (watermark_in q) same ∙ k q))
              (λ opened. close_run-Kept _ (λ q. rw (watermark_in-state_succeeded, k q)))

      finish_pull-Kept :
          (rows : List KaryawanRow) (tx : Tx)
          → fetched ≡ ok rows
          → SameMarks tx.tables db.tables
          → Kept fetched
              (finish_pull w res (pull w 0 rows 0 (watermark_of res db) db.karyawan) tx db)
      finish_pull-Kept rows tx got k = go (pull w 0 rows 0 (watermark_of res db) db.karyawan) refl
        where
          go :
              (p : Pull)
              → pull w 0 rows 0 (watermark_of res db) db.karyawan ≡ p
              → Kept fetched (finish_pull w res p tx db)
          go (stopped cause t) e = unfold finish_pull in give_up-Kept cause tx _ (λ q. refl) k
          go (done n m t) e =
              let (a, b, c) = pull-done w 0 rows 0 (watermark_of res db) db.karyawan e in
              let counted : n ≡ length rows = omega arith in
              unfold finish_pull in
              rw (counted, b) (finish-Kept rows (record db { karyawan = t }) got (λ q. refl) c tx k)

      with_rows-Kept :
          (tx : Tx)
          → SameMarks tx.tables db.tables
          → Kept fetched (with_rows w res (watermark_of res db) fetched tx db)
      with_rows-Kept tx k = go fetched refl
        where
          go :
              (f : Result Text (List KaryawanRow))
              → fetched ≡ f
              → Kept fetched (with_rows w res (watermark_of res db) f tx db)
          go (err e) same = unfold with_rows in give_up-Kept _ tx db (λ q. refl) k
          go (ok rows) same = unfold with_rows in finish_pull-Kept rows tx same k

    module _ (fetch : Time → Result Text (List KaryawanRow)) where
      with_watermark-Kept :
          (fault : Option Text) (tx : Tx)
          → SameMarks tx.tables db.tables
          → Kept
              (fetch (watermark_of res db))
              (with_watermark w res fetch (read_watermark fault res db) tx db)
      unfolding with_watermark read_watermark
      with_watermark-Kept (some e) tx k = give_up-Kept _ _ tx db (λ q. refl) k
      with_watermark-Kept none tx k = with_rows-Kept _ tx k

      start-Kept :
          (tx : Tx)
          → SameMarks tx.tables db.tables
          → Kept (fetch (watermark_of res db)) (start w res fetch tx db)
      unfolding start
      start-Kept tx k =
          after_rule (insert_run w.run_id res (w.clock start_run)) tx
            (Kept (fetch (watermark_of res db))) (w.fault start_run) _ _
            (λ e tx' closed same. Kept-failed _ 0 _ db (λ q. refl))
            (λ opened.
              with_watermark-Kept (w.fault read_state) _
                (λ q. SameMarks-insert_run _ _ _ tx.tables q ∙ k q))

      take_lock-Kept : Kept (fetch (watermark_of res db)) (take_lock w res fetch (begin db) db)
      unfolding take_lock
      take_lock-Kept =
          after_rule (λ t. t) (begin db) (Kept (fetch (watermark_of res db))) (w.fault lock) _ _
            (λ e tx' closed same. Kept-failed _ 0 _ db (λ q. refl))
            (λ opened. start-Kept _ (λ q. refl))

      open_tx-Kept :
          (fault : Option Text) → Kept (fetch (watermark_of res db)) (open_tx w res fault fetch db)
      unfolding open_tx
      open_tx-Kept (some e) = Kept-failed _ 0 _ db (λ q. refl)
      open_tx-Kept none = take_lock-Kept

-- A pass that fails, wherever it does, leaves every committed watermark as it was. One that
-- succeeds has fetched the rows past the watermark, upserted all of them into the mirror, counted
-- them, and moved the watermark of its resource alone to the newest of them.
pub sync_karyawan-Kept :
    {S : Type 0} (i : Source S) (w : World) (s : Syncer S) (db : Db)
    → Kept w s.resource db (i.fetch s.src (watermark_of s.resource db)) (sync_karyawan i w s db)
unfolding sync_karyawan
sync_karyawan-Kept i w s db = open_tx-Kept w s.resource db (i.fetch s.src) (w.fault begin_tx)
