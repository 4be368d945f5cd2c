-- ===== src/Sync/Steps/Killed.antt =====
-- A process that dies while its pass holds the lock: PostgreSQL rolls its transaction back, and the
-- rows it has upserted stay.
use mathlib.Core.List.{Memᴰ}
use mathlib.Core.Path.{subst}
use gateway_login.Base.{
  ℕ, zero, suc, ◌≡◌, refl, ap, ap₂, ◌∙◌, Bool, true, false, Option, none, some, List, [], ◌∷◌, Text,
  Result, ok, err, ◌⊎◌, inl, inr,
}
use gateway_login.Postgres.{Time}
use gateway_login.Vps.{KaryawanRow}
use gateway_login.Sync.Store.{
  Db, Tables, insert_run, run_succeeded, state_succeeded, Tx, begin, exec,
}
use gateway_login.Sync.Rows.{raw_payload, marshals}
use gateway_login.Sync.Run.{
  World, Outcome, start, read_watermark, start_run, read_state, upsert_row, put_watermark,
  finish_run,
}
use gateway_login.Sync.Steps.{
  Work, inserting, reading, fetching, pulling, marking, closing, committing, committing_after,
  failing, Next, more, over, moved, read_next, fetch_next, pull_next, advance, rest, rest_of, steps,
}
use gateway_login.Sync.Runs.{AllSettled, start-Settled}
use gateway_login.Sync.Steps.Returns.{rest_of-steps}

module _ (w : World) (res : Text) (fetch : Time → Result Text (List KaryawanRow)) where
  -- After `m` calls of a pass that has just taken the lock.
  abbrev pub calls : ℕ → Db → Next × Db
  calls m db = steps w res fetch m (more (inserting (begin db)), db)

  -- What a pass leaves that is killed after `m` calls, or has returned by then.
  unfoldable pub killed : ℕ → Db → Db
  unfolding steps
  killed m db = (calls m db).1

  -- One call more.
  pub steps-suc :
      (m : ℕ) (x : Next × Db) (k : Work) (d : Db)
      → steps w res fetch m x ≡ (more k, d)
      → steps w res fetch (suc m) x ≡ advance w res fetch k d
  unfolding steps
  steps-suc zero (more k', d') k d h =
      let work : k' ≡ k = cc in let at : d' ≡ d = cc in ap₂ (advance w res fetch) work at
  steps-suc zero (over n e, d') k d h = absurd (cc)
  steps-suc (suc m) (more k', d') k d h = steps-suc m (advance w res fetch k' d') k d h
  steps-suc (suc m) (over n e, d') k d h = absurd (cc)

  -- The tables of the runs and of the states change by the last call alone.
  abbrev pub Keeps : Db → Next × Db → Type 0
  Keeps db (more k, db') = db'.tables ≡ db.tables
  Keeps db (over n e, db') = Unit

  moved-Keeps :
      (r : Option Text × Tx) (bad : Text → Tx → Next) (good : Tx → Next) (db : Db)
      → ((e : Text) (tx : Tx) → Keeps db (bad e tx, db))
      → ((tx : Tx) → Keeps db (good tx, db))
      → Keeps db (moved r bad good, db)
  moved-Keeps (some e, tx) bad good db on_error on_success = on_error e tx
  moved-Keeps (none, tx) bad good db on_error on_success = on_success tx

  advance-Keeps : (k : Work) (db : Db) → Keeps db (advance w res fetch k db)
  unfolding advance
  advance-Keeps (inserting tx) db =
      moved-Keeps (exec (w.fault start_run) (insert_run w.run_id res (w.clock start_run)) tx) _ _ db
        (λ e tx1. tt) (λ tx1. refl)
  advance-Keeps (reading tx) db = go (read_watermark (w.fault read_state) res db)
    where
      go : (r : Result Text Time) → Keeps db (read_next w res fetch r tx, db)
      go (err e) = unfold read_next in refl
      go (ok mark) = unfold read_next in refl
  advance-Keeps (fetching mark tx) db = go (fetch mark)
    where
      go : (r : Result Text (List KaryawanRow)) → Keeps db (fetch_next w res fetch mark r tx, db)
      go (err e) = unfold fetch_next in refl
      go (ok rows) = unfold fetch_next in refl
  advance-Keeps (pulling i [] n max tx) db = refl
  advance-Keeps (pulling i (r ∷ rs) n max tx) db =
      go (marshals (raw_payload r)) (w.fault (upsert_row i))
    where
      go :
          (good : Bool) (f : Option Text)
          → Keeps db (pull_next w res fetch i r rs n max tx db good f)
      go false f = unfold pull_next in refl
      go true (some e) = unfold pull_next in refl
      go true none = unfold pull_next in refl
  advance-Keeps (marking n max tx) db =
      moved-Keeps
        (exec (w.fault put_watermark) (state_succeeded res max (w.clock put_watermark)) tx) _ _ db
        (λ e tx1. refl) (λ tx1. refl)
  advance-Keeps (closing n tx) db =
      moved-Keeps (exec (w.fault finish_run) (run_succeeded w.run_id (w.clock finish_run) n) tx) _ _
        db (λ e tx1. refl) (λ tx1. refl)
  advance-Keeps (committing n tx) db = tt
  advance-Keeps (committing_after n cause tx) db = tt
  advance-Keeps (failing cause tx) db = tt

  Keeps-after : (db db' : Db) (x : Next × Db) → db'.tables ≡ db.tables → Keeps db' x → Keeps db x
  Keeps-after db db' (more k, d) same kept = kept ∙ same
  Keeps-after db db' (over n e, d) same kept = tt

  pub steps-Keeps :
      (m : ℕ) (db : Db) (x : Next × Db) → Keeps db x → Keeps db (steps w res fetch m x)
  unfolding steps
  steps-Keeps zero db x h = h
  steps-Keeps (suc m) db (more k, db') h =
      steps-Keeps m db (advance w res fetch k db')
        (Keeps-after db db' (advance w res fetch k db') h (advance-Keeps k db'))
  steps-Keeps (suc m) db (over n e, db') h = tt

  -- A pass that is killed before its last call has left the runs and the watermarks as they were;
  -- after it, the database is that of the whole pass.
  pub killed-tables :
      (m : ℕ) (db : Db)
      → ((killed m db).tables ≡ db.tables) ⊎ (killed m db ≡ (start w res fetch (begin db) db).db)
  unfolding killed
  killed-tables m db =
      go (calls m db) (steps-Keeps m db (more (inserting (begin db)), db) refl)
        (rest_of-steps w res fetch m (more (inserting (begin db)), db))
    where
      go :
          (x : Next × Db)
          → Keeps db x
          → rest_of w res fetch x ≡ rest_of w res fetch (more (inserting (begin db)), db)
          → (x.1.tables ≡ db.tables) ⊎ (x.1 ≡ (start w res fetch (begin db) db).db)
      go (more k, db') keeps same = inl keeps
      go (over n e, db') keeps same = inr (unfold rest_of rest in ap (λ (o : Outcome). o.db) same)

  -- It leaves no row in the state 'running' either.
  pub killed-AllSettled : (m : ℕ) (db : Db) → AllSettled db → AllSettled (killed m db)
  killed-AllSettled m db h r here = elim (killed-tables m db) [
    | inl same ↦ h r (subst (λ (t : Tables). Memᴰ r t.runs) same here)
    | inr whole ↦
        elim (start-Settled w res fetch db (begin db) refl r
          (subst (λ (d : Db). Memᴰ r d.tables.runs) whole here)) [
            | inl old ↦ h r old
            | inr ended ↦ ended
          ]
  ]
