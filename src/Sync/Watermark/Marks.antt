-- ===== src/Sync/Watermark/Marks.antt =====
-- The statements of sync_runs of internal/sync/sync.go, which leave every watermark.
use gateway_login.Base.{ℕ, ◌≡◌, refl, ap, ◌∙◌, Option, Text}
use gateway_login.Postgres.{Time}
use gateway_login.Sync.Store.{
  SyncRun, Tables, Tx, exec, state_failed, insert_run, update_run, run_failed, run_succeeded,
}
use gateway_login.Sync.Run.{watermark_in, World, mark_run_failed, fail_run, fail_state}
use gateway_login.Sync.Statements.{watermark_in-state_failed, exec_rule}

-- The same watermarks, of every resource.
abbrev pub SameMarks : Tables → Tables → Type 0
SameMarks t u = (q : Text) → watermark_in q t ≡ watermark_in q u

SameMarks-update_run :
    (id : ℕ) (set : SyncRun → SyncRun) (t : Tables) → SameMarks (update_run id set t) t
unfolding watermark_in update_run
SameMarks-update_run id set t q = refl

pub SameMarks-insert_run :
    (id : ℕ) (res : Text) (at : Time) (t : Tables) → SameMarks (insert_run id res at t) t
unfolding watermark_in insert_run
SameMarks-insert_run id res at t q = refl

SameMarks-run_failed :
    (id : ℕ) (at : Time) (cause : Text) (t : Tables) → SameMarks (run_failed id at cause t) t
unfolding run_failed
SameMarks-run_failed id at cause t = SameMarks-update_run id _ t

pub SameMarks-run_succeeded :
    (id : ℕ) (at : Time) (n : ℕ) (t : Tables) → SameMarks (run_succeeded id at n t) t
unfolding run_succeeded
SameMarks-run_succeeded id at n t = SameMarks-update_run id _ t

-- A statement that leaves the watermarks does so however it ends.
exec-SameMarks :
    (stmt : Tables → Tables) (tx : Tx) (fault : Option Text)
    → SameMarks (stmt tx.tables) tx.tables
    → SameMarks (exec fault stmt tx).1.tables tx.tables
exec-SameMarks stmt tx fault h =
    exec_rule stmt tx (λ u. SameMarks u.tables tx.tables) fault
      (λ u closed same q. ap (watermark_in q) same) (λ opened. h)

module _ (w : World) (res : Text) where
  pub mark_run_failed-SameMarks :
      (cause : Text) (tx : Tx) → SameMarks (mark_run_failed w res cause tx).tables tx.tables
  unfolding mark_run_failed
  mark_run_failed-SameMarks cause tx q =
      let stmt = run_failed w.run_id (w.clock fail_run) cause in
      let tx1 = (exec (w.fault fail_run) stmt tx).1 in
      exec-SameMarks (state_failed res (w.clock fail_state) cause) tx1 (w.fault fail_state)
        (watermark_in-state_failed res (w.clock fail_state) cause tx1.tables) q
      ∙ exec-SameMarks stmt tx (w.fault fail_run) (SameMarks-run_failed _ _ cause tx.tables) q
