-- ===== src/Sync/Steps/Mirrored.antt =====
-- What a pass over the VPS leaves in the mirror, to its end or to the death of its process:
-- SyncKaryawan of internal/sync/sync.go with the source of internal/vpsmysql/client.go.
use mathlib.Core.List.{Memᴰ}
use mathlib.Core.Path.{subst}
use gateway_login.Base.{
  ℕ, zero, suc, ◌≡◌, refl, sym, ap, Bool, true, false, Option, none, some, List, [], ◌∷◌, Text,
  Result, ok, err, pos_part,
}
use gateway_login.Postgres.{Time}
use gateway_login.Vps.{KaryawanRow, Client, Faults, fetch_karyawan_updated_since}
use gateway_login.Vps.Laws.{fetch-ok}
use gateway_login.Sync.Store.{
  Db, insert_run, run_succeeded, state_succeeded, Tx, begin, exec, commit,
}
use gateway_login.Sync.Rows.{raw_payload, marshals}
use gateway_login.Sync.Run.{
  World, read_watermark, start_run, read_state, upsert_row, put_watermark, finish_run, commit_tx,
  commit_failure, mark_run_failed, start, Syncer, open_tx, take_lock, lock, begin_tx, sync_karyawan,
  watermark_in, watermark_of,
}
use gateway_login.Sync.Mirror.{IsTable, upsert-IsMirrored}
use gateway_login.Sync.Mirror.Coverage.{IsCovered, taken-mem, vps}
use gateway_login.Sync.Steps.{
  Work, inserting, reading, fetching, pulling, marking, closing, committing, committing_after,
  failing, Next, more, over, moved, read_next, fetch_next, pull_next, advance, steps,
}
use gateway_login.Sync.Statements.{commit_rule, after_rule}
use gateway_login.Sync.Steps.Returns.{steps-start}
use gateway_login.Sync.Steps.Killed.{calls, killed, Keeps, steps-Keeps}

module _ (le : Text → Text → Bool) (table : List KaryawanRow) (faults : Faults) (c : Client)
    (w : World) (res : Text) (mark : Time) where
  abbrev fetch : Time → Result Text (List KaryawanRow)
  fetch = fetch_karyawan_updated_since le faults table c

  -- What is still to be upserted are rows of the VPS.
  abbrev IsFetched : Work → Type 0
  IsFetched (pulling i rows n max tx) = (a : KaryawanRow) → Memᴰ a rows → Memᴰ a table
  IsFetched _ = Unit

  abbrev Sound : Next × Db → Type 0
  Sound (more k, d) = IsFetched k × IsCovered table mark d.karyawan
  Sound (over n e, d) = IsCovered table mark d.karyawan

  module _ (keyed : IsTable table) where
    moved-Sound :
        (r : Option Text × Tx) (bad : Text → Tx → Next) (good : Tx → Next) (d : Db)
        → ((e : Text) (tx : Tx) → Sound (bad e tx, d))
        → ((tx : Tx) → Sound (good tx, d))
        → Sound (moved r bad good, d)
    moved-Sound (some e, tx) bad good d on_error on_success = on_error e tx
    moved-Sound (none, tx) bad good d on_error on_success = on_success tx

    pull_next-Sound :
        (i : ℕ) (r : KaryawanRow) (rs : List KaryawanRow) (n : ℕ) (max : Time) (tx : Tx) (d : Db)
        (good : Bool) (f : Option Text)
        → ((a : KaryawanRow) → Memᴰ a (r ∷ rs) → Memᴰ a table)
        → IsCovered table mark d.karyawan
        → Sound (pull_next w res fetch i r rs n max tx d good f)
    unfolding pull_next
    pull_next-Sound i r rs n max tx d false f listed old = (tt, old)
    pull_next-Sound i r rs n max tx d true (some e) listed old = (tt, old)
    pull_next-Sound i r rs n max tx d true none listed old = (
      λ a m. listed a (Memᴰ.tail m),
      λ b m bound.
          upsert-IsMirrored (w.clock (upsert_row i)) r b d.karyawan
            (λ same. sym (keyed r b (listed r (Memᴰ.head refl)) m same)) (old b m bound),
    )

    fetch_next-Sound :
        (since : Time) (r : Result Text (List KaryawanRow)) (tx : Tx) (d : Db)
        → fetch since ≡ r
        → IsCovered table mark d.karyawan
        → Sound (fetch_next w res fetch since r tx, d)
    unfolding fetch_next
    fetch_next-Sound since (err e) tx d got old = (tt, old)
    fetch_next-Sound since (ok rows) tx d got old = (
      λ a m.
          taken-mem le table since (pos_part c.batch_size) a
            (subst (λ l. Memᴰ a l) (fetch-ok le faults table c since rows got) m),
      old,
    )

    read_next-Sound :
        (r : Result Text Time) (tx : Tx) (d : Db)
        → IsCovered table mark d.karyawan
        → Sound (read_next w res fetch r tx, d)
    unfolding read_next
    read_next-Sound (err e) tx d old = (tt, old)
    read_next-Sound (ok since) tx d old = (tt, old)

    -- A commit leaves the mirror.
    commit-IsCovered :
        (fault : Option Text) (tx : Tx) (d : Db)
        → IsCovered table mark d.karyawan
        → IsCovered table mark (commit fault tx d).1.karyawan
    commit-IsCovered fault tx d old =
        commit_rule tx d (λ r. IsCovered table mark r.1.karyawan) fault (λ e. old) (λ opened. old)

    advance-Sound :
        (k : Work) (d : Db)
        → IsFetched k
        → IsCovered table mark d.karyawan
        → Sound (advance w res fetch k d)
    unfolding advance
    advance-Sound (inserting tx) d f old =
        moved-Sound (exec (w.fault start_run) (insert_run w.run_id res (w.clock start_run)) tx) _ _
          d (λ e tx1. old) (λ tx1. (tt, old))
    advance-Sound (reading tx) d f old =
        read_next-Sound (read_watermark (w.fault read_state) res d) tx d old
    advance-Sound (fetching since tx) d f old = fetch_next-Sound since (fetch since) tx d refl old
    advance-Sound (pulling i [] n max tx) d f old = (tt, old)
    advance-Sound (pulling i (r ∷ rs) n max tx) d f old =
        pull_next-Sound i r rs n max tx d (marshals (raw_payload r)) (w.fault (upsert_row i)) f old
    advance-Sound (marking n max tx) d f old =
        moved-Sound
          (exec (w.fault put_watermark) (state_succeeded res max (w.clock put_watermark)) tx) _ _ d
          (λ e tx1. (tt, old)) (λ tx1. (tt, old))
    advance-Sound (closing n tx) d f old =
        moved-Sound (exec (w.fault finish_run) (run_succeeded w.run_id (w.clock finish_run) n) tx) _
          _ d (λ e tx1. (tt, old)) (λ tx1. (tt, old))
    advance-Sound (committing n tx) d f old = commit-IsCovered (w.fault commit_tx) tx d old
    advance-Sound (committing_after n cause tx) d f old =
        commit-IsCovered (w.fault commit_tx) tx d old
    advance-Sound (failing cause tx) d f old =
        commit-IsCovered (w.fault commit_failure) (mark_run_failed w res cause tx) d old

    steps-Sound : (m : ℕ) (x : Next × Db) → Sound x → Sound (steps w res fetch m x)
    unfolding steps
    steps-Sound zero x h = h
    steps-Sound (suc m) (more k, d) h =
        steps-Sound m (advance w res fetch k d) (advance-Sound k d h.0 h.1)
    steps-Sound (suc m) (over n e, d) h = h

    -- A pass that has the lock, to its end.
    start-IsCovered :
        (db : Db)
        → IsCovered table mark db.karyawan
        → IsCovered table mark (start w res fetch (begin db) db).db.karyawan
    start-IsCovered db old =
        let (m, ends) = steps-start w res fetch (begin db) db in
        subst Sound ends (steps-Sound m (more (inserting (begin db)), db) (tt, old))

-- The mirror loses no row by a pass, whatever fails in it.
pub sync_karyawan-IsCovered_before :
    (le : Text → Text → Bool) (table : List KaryawanRow) (faults : Faults) (w : World)
    (s : Syncer Client) (db : Db) (mark : Time)
    → IsTable table
    → IsCovered table mark db.karyawan
    → IsCovered table mark (sync_karyawan (vps le table faults) w s db).db.karyawan
unfolding sync_karyawan open_tx take_lock
sync_karyawan-IsCovered_before le table faults w s db mark keyed old = go (w.fault begin_tx)
  where
    go :
        (f : Option Text)
        → let pulled = fetch_karyawan_updated_since le faults table s.src in
          IsCovered table mark (open_tx w s.resource f pulled db).db.karyawan
    go (some e) = old
    go none =
        after_rule (λ t. t) (begin db) (λ o. IsCovered table mark o.db.karyawan) (w.fault lock) _ _
          (λ e tx closed same. old)
          (λ opened. start-IsCovered le table faults s.src w s.resource mark keyed db old)

-- If NIK_HRIS is a key of the VPS's table and the mirror is complete up to the watermark, and the
-- process of a pass dies between two of its calls while it holds the lock, then the watermark is
-- the one from before, and the mirror is complete up to it: the next pass begins where this one
-- began.
pub killed-IsCovered :
    (le : Text → Text → Bool) (table : List KaryawanRow) (faults : Faults) (c : Client) (w : World)
    (res : Text) (m : ℕ) (db d : Db) (k : Work)
    → IsTable table
    → IsCovered table (watermark_of res db) db.karyawan
    → calls w res (fetch_karyawan_updated_since le faults table c) m db ≡ (more k, d)
    → (watermark_of res (killed w res (fetch_karyawan_updated_since le faults table c) m db)
        ≡ watermark_of res db)
      × IsCovered table
          (watermark_of res db)
          (killed w res (fetch_karyawan_updated_since le faults table c) m db).karyawan
unfolding killed
killed-IsCovered le table faults c w res m db d k keyed old at =
    let fetch_all = fetch_karyawan_updated_since le faults table c in
    let kept : Keeps w res fetch_all db (more k, d) =
      subst (Keeps w res fetch_all db) at
        (steps-Keeps w res fetch_all m db (more (inserting (begin db)), db) refl) in
    let sound = subst (Sound le table faults c w res (watermark_of res db)) at (
      steps-Sound le table faults c w res (watermark_of res db) keyed m
        (more (inserting (begin db)), db) (tt, old)) in
    let same : killed w res fetch_all m db ≡ d = ap (λ (x : Next × Db). x.1) at in
    rw same (ap (watermark_in res) kept, sound.1)
