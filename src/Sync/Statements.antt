-- ===== src/Sync/Statements.antt =====
-- What the statements of a pass do to the watermark, and how a statement in a transaction ends.
use gateway_login.Base.{
  ◌≡◌, refl, Bool, true, false, Option, none, some, List, [], ◌∷◌, Text, text_eq, text_eq_iff, inl,
  inr, arith, Bool-cases, if◌then◌else◌,
}
use gateway_login.Postgres.{Time}
use gateway_login.Sync.Store.{
  SyncState, Tables, succeeded_row, set_succeeded, Db, Tx, run_statement, exec, end_tx, commit,
  put_state, find_state, state_failed, state_succeeded,
}
use gateway_login.Sync.Run.{watermark_or_epoch, watermark_in, Outcome, after}

abbrev merged : SyncState → (SyncState → SyncState) → Option SyncState → SyncState
merged new set none = new
merged new set (some s) = set s

-- The row under a key after an upsert.
pub find_state-put_state :
    (new : SyncState) (set : SyncState → SyncState) (ss : List SyncState) (q : Text)
    → ((s : SyncState) → (set s).resource ≡ s.resource)
    → find_state q (put_state new set ss) ≡ (
        if text_eq new.resource q then some (merged new set (find_state q ss)) else find_state q ss)
unfolding find_state put_state
find_state-put_state new set [] q keep = refl
find_state-put_state new set (s ∷ ss) q keep = ground (
  arith,
  find_state-put_state new set ss q keep,
  keep s,
  text_eq_iff s.resource new.resource,
  text_eq_iff new.resource q,
  text_eq_iff s.resource q,
)

-- An upsert that brings no watermark and keeps the one that is there.
find_state-put_state_kept :
    (new : SyncState) (set : SyncState → SyncState) (ss : List SyncState) (q : Text)
    → ((s : SyncState) → (set s).resource ≡ s.resource)
    → new.watermark ≡ none
    → ((s : SyncState) → (set s).watermark ≡ s.watermark)
    → watermark_or_epoch (find_state q (put_state new set ss))
      ≡ watermark_or_epoch (find_state q ss)
find_state-put_state_kept new set ss q keep no_mark same_mark =
    rw (find_state-put_state new set ss q keep) (elim (Bool-cases (text_eq new.resource q)) [
      | inl same ↦ rw same (kept (find_state q ss))
      | inr other ↦ rw other
    ])
  where
    kept :
        (o : Option SyncState) → watermark_or_epoch (some (merged new set o)) ≡ watermark_or_epoch o
    kept none = unfold watermark_or_epoch in ground (arith, no_mark)
    kept (some s) = unfold watermark_or_epoch in ground (arith, same_mark s)

-- A failure leaves the watermark of every resource.
pub watermark_in-state_failed :
    (resource : Text) (at : Time) (cause : Text) (t : Tables) (q : Text)
    → watermark_in q (state_failed resource at cause t) ≡ watermark_in q t
unfolding watermark_in state_failed
watermark_in-state_failed resource at cause t q =
    find_state-put_state_kept _ _ t.states q (λ s. refl) refl (λ s. refl)

-- A success sets the watermark of its resource, and leaves the others.
pub watermark_in-state_succeeded :
    (resource : Text) (mark at : Time) (t : Tables) (q : Text)
    → watermark_in q (state_succeeded resource mark at t)
      ≡ (if text_eq resource q then mark else watermark_in q t)
unfolding watermark_in state_succeeded
watermark_in-state_succeeded resource mark at t q =
    rw
      (find_state-put_state (succeeded_row resource mark at) (set_succeeded mark at) t.states q
        (λ s. refl))
      (elim (Bool-cases (text_eq resource q)) [
        | inl same ↦ rw same (set (find_state q t.states))
        | inr other ↦ rw other
      ])
  where
    set :
        (o : Option SyncState)
        → watermark_or_epoch
            (some (merged (succeeded_row resource mark at) (set_succeeded mark at) o))
          ≡ mark
    set none = unfold watermark_or_epoch in refl
    set (some s) = unfold watermark_or_epoch in refl

-- A property holds after a statement if it holds in the aborted transaction and, where the
-- transaction was open, after the statement.
module _ (stmt : Tables → Tables) (tx : Tx) where
  run_statement_rule :
      (P : Tx → Type 0) (aborted : Bool) (fault : Option Text)
      → tx.aborted ≡ aborted
      → ((tx' : Tx) → tx'.aborted ≡ true → tx'.tables ≡ tx.tables → P tx')
      → (tx.aborted ≡ false → P (record tx { tables = stmt tx.tables }))
      → P (run_statement aborted fault stmt tx).1
  unfolding run_statement
  run_statement_rule P true fault e broke did = broke tx e refl
  run_statement_rule P false none e broke did = did e
  run_statement_rule P false (some c) e broke did = broke _ refl refl

  pub exec_rule :
      (P : Tx → Type 0) (fault : Option Text)
      → ((tx' : Tx) → tx'.aborted ≡ true → tx'.tables ≡ tx.tables → P tx')
      → (tx.aborted ≡ false → P (record tx { tables = stmt tx.tables }))
      → P (exec fault stmt tx).1
  exec_rule P fault broke did = run_statement_rule P tx.aborted fault refl broke did

  after_statement_rule :
      (P : Outcome → Type 0) (aborted : Bool) (fault : Option Text) (bad : Text → Tx → Outcome)
      (good : Tx → Outcome)
      → tx.aborted ≡ aborted
      → ((e : Text) (tx' : Tx) → tx'.aborted ≡ true → tx'.tables ≡ tx.tables → P (bad e tx'))
      → (tx.aborted ≡ false → P (good (record tx { tables = stmt tx.tables })))
      → P (after (run_statement aborted fault stmt tx) bad good)
  unfolding run_statement
  after_statement_rule P true fault bad good e broke did = broke _ tx e refl
  after_statement_rule P false none bad good e broke did = did e
  after_statement_rule P false (some c) bad good e broke did = broke _ _ refl refl

  pub after_rule :
      (P : Outcome → Type 0) (fault : Option Text) (bad : Text → Tx → Outcome) (good : Tx → Outcome)
      → ((e : Text) (tx' : Tx) → tx'.aborted ≡ true → tx'.tables ≡ tx.tables → P (bad e tx'))
      → (tx.aborted ≡ false → P (good (record tx { tables = stmt tx.tables })))
      → P (after (exec fault stmt tx) bad good)
  after_rule P fault bad good broke did =
      after_statement_rule P tx.aborted fault bad good refl broke did

module _ (tx : Tx) (db : Db) where
  end_tx_rule :
      (P : Option Text × Db → Type 0) (aborted : Bool) (fault : Option Text)
      → tx.aborted ≡ aborted
      → ((e : Text) → P (some e, db))
      → (tx.aborted ≡ false → P (none, record db { tables = tx.tables }))
      → P (end_tx aborted fault tx db)
  unfolding end_tx
  end_tx_rule P true fault e kept did = kept _
  end_tx_rule P false none e kept did = did e
  end_tx_rule P false (some c) e kept did = kept c

  -- A commit leaves the database, with an error, or it replaces the tables of an open transaction.
  pub commit_rule :
      (P : Option Text × Db → Type 0) (fault : Option Text)
      → ((e : Text) → P (some e, db))
      → (tx.aborted ≡ false → P (none, record db { tables = tx.tables }))
      → P (commit fault tx db)
  commit_rule P fault kept did = end_tx_rule P tx.aborted fault refl kept did

  -- An aborted transaction changes nothing.
  pub commit-aborted : (fault : Option Text) → tx.aborted ≡ true → (commit fault tx db).1 ≡ db
  commit-aborted fault h = commit_rule (λ r. r.1 ≡ db) fault (λ e. refl) (λ opened. cc)
