-- ===== src/Sync/Mirror/Skips.antt =====
-- The rows that a pass of SyncKaryawan (internal/sync/sync.go) leaves behind the new watermark, with
-- the source of internal/vpsmysql/client.go.
use mathlib.Core.List.{Memᴰ}
use mathlib.Core.List.Memᴰ
use mathlib.Core.Path.{subst}
use gateway_login.Base.{
  ℕ, ◌+◌, ◌≤◌, ◌≡◌, ◌≢◌, refl, ◌∙◌, Bool, true, false, none, some, List, [], ◌∷◌, Text, text_eq,
  text_eq_iff, arith, if◌then◌else◌, ok, pos_part, take, drop, take-append-drop,
}
use gateway_login.Postgres.{Time}
use gateway_login.Karyawan.Table.{Record, inserted, upsert, find}
use gateway_login.Vps.{KaryawanRow, Client, Faults, fetch_karyawan_updated_since}
use gateway_login.Vps.Laws.{pending, pending-mem, fetch-ok}
use gateway_login.Sync.Store.{Db}
use gateway_login.Sync.Run.{World, Syncer, upsert_row, watermark_of, sync_karyawan}
use gateway_login.Sync.Rows.{to_karyawan}
use gateway_login.Sync.Watermark.{newest, upserts}
use gateway_login.Sync.Mirror.Coverage.{vps, passed, taken-mem, mem-le-newest}
use gateway_login.Sync.Mirror.{IsTable, find-upsert_row}

-- A row behind a cut through its own time is not past the new watermark.
left_behind :
    (le : Text → Text → Bool) (table : List KaryawanRow) (since : Time) (n : ℕ) (a b : KaryawanRow)
    → Memᴰ a (take n (pending le since table))
    → a.updated_at ≡ b.updated_at
    → b.updated_at ≤ newest since (take n (pending le since table))
left_behind le table since n a b l e =
    omega (arith, mem-le-newest since (take n (pending le since table)) a l, e)

find-upserts_ne :
    (w : World) (i : ℕ) (rows : List KaryawanRow) (t : List Record) (nik : Text)
    → ((x : KaryawanRow) → Memᴰ x rows → x.nik_hris ≢ nik)
    → find nik (upserts w i rows t) ≡ find nik t
unfolding upserts
find-upserts_ne w i [] t nik other = refl
find-upserts_ne w i (x ∷ xs) t nik other =
    let at = w.clock (upsert_row i) in
    find-upserts_ne w (i + 1) xs (upsert at (to_karyawan x) t) nik (λ y l. other y (Memᴰ.tail l))
    ∙ find-upsert_row at x t nik
    ∙ skipped (text_eq x.nik_hris nik) refl
  where
    skipped :
        (same : Bool)
        → text_eq x.nik_hris nik ≡ same
        → (if same then some (inserted (w.clock (upsert_row i)) (to_karyawan x)) else find nik t)
          ≡ find nik t
    skipped true e = absurd (other x (Memᴰ.head refl) ((text_eq_iff x.nik_hris nik).0 e))
    skipped false e = refl

module _ (le : Text → Text → Bool) (table : List KaryawanRow) (faults : Faults) (w : World)
    (s : Syncer Client) (db : Db) where
  abbrev mark : Time
  mark = watermark_of s.resource db

  abbrev limit : ℕ
  limit = pos_part s.src.batch_size

  abbrev next : Db
  next = (sync_karyawan (vps le table faults) w s db).db

  -- If NIK_HRIS is a key of the VPS's table, a row that the LIMIT leaves behind although one of
  -- its time was taken is not stored by a pass that succeeds, and no fetch of the same table
  -- from the new watermark on returns it.
  pub sync_karyawan-skips :
      (a b : KaryawanRow)
      → IsTable table
      → Memᴰ a (take limit (pending le mark table))
      → Memᴰ b (drop limit (pending le mark table))
      → ¬ Memᴰ b (take limit (pending le mark table))
      → a.updated_at ≡ b.updated_at
      → (sync_karyawan (vps le table faults) w s db).error ≡ none
      → (find b.nik_hris next.karyawan ≡ find b.nik_hris db.karyawan)
        × ((c : Client) (since : Time) (rows : List KaryawanRow)
            → watermark_of s.resource next ≤ since
            → fetch_karyawan_updated_since le faults table c since ≡ ok rows
            → ¬ Memᴰ b rows)
  sync_karyawan-skips a b keyed l m absent e h =
      let (stored, marked) = passed le table faults w s db h in
      let whole = Memᴰ.append_right (take limit (pending le mark table)) m in
      let (listed, _) =
        pending-mem le mark b table
          (rw (take-append-drop limit (pending le mark table)) at whole) in
      (
        rw stored (
            find-upserts_ne w 0 (take limit (pending le mark table)) db.karyawan b.nik_hris
              (λ x k same. absent (
                subst (λ y. Memᴰ y (take limit (pending le mark table)))
                  (keyed x b (taken-mem le table mark limit x k) listed same) k))),
        λ c since rows bound got k.
            let fetched = rw (fetch-ok le faults table c since rows got) at k in
            let past = pending-mem le since b table (
              rw (take-append-drop (pos_part c.batch_size) (pending le since table)) at (
                Memᴰ.append_left (drop (pos_part c.batch_size) (pending le since table))
                  fetched)) in
            absurd (omega (arith, past.1, bound, marked, left_behind le table mark limit a b l e)),
      )
