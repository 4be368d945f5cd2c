-- ===== src/Sync/Progress.antt =====
-- Passes of SyncKaryawan that meet no fault, one after another.
use mathlib.Core.List.{Memᴰ}
use mathlib.Core.List.Memᴰ
use mathlib.Core.Path.{subst}
use native.Mathlib.Decide.{dec_lt, dec_le}
use gateway_login.Base.{
  ℕ, zero, suc, ◌+◌, ◌≤◌, ◌<◌, ◌≡◌, refl, sym, ap, Bool, true, none, List, [], ◌∷◌, Text, arith, ok,
  ltb, pos_part, take, select, length,
}
use gateway_login.Postgres.{Time}
use gateway_login.Karyawan.Table.{Record, upsert}
use gateway_login.Vps.{
  KaryawanRow, Client, no_faults, scan_rows, fetch_karyawan_updated_since, karyawan_query,
}
use gateway_login.Vps.Laws.{pending, mem-pending, pending-mem}
use gateway_login.Sync.Store.{Db, run_statement, end_tx}
use gateway_login.Sync.Run.{
  World, Source, Syncer, Call, upsert_row, later, done, pull, watermark_of, read_watermark,
  with_watermark, with_rows, finish_pull, finish, close_run, conclude, start, take_lock, open_tx,
  sync_karyawan,
}
use gateway_login.Sync.Rows.{raw_payload, marshals, to_karyawan}
use gateway_login.Sync.Watermark.{newest}
use gateway_login.Sync.Mirror.{IsMirrored, IsTable}
use gateway_login.Sync.Mirror.Coverage.{
  IsCovered, IsCleanCut, taken-mem, le-newest, mem-le-newest, vps, passed, sync_karyawan-IsCovered,
}

-- A pass that meets no fault.
abbrev pub calm : (Call → Time) → ℕ → World
calm clock run_id = record { fault = λ c. none; clock = clock; run_id = run_id }

-- No time of the row is past the year 9999, so its payload is written.
abbrev pub Marshals : List KaryawanRow → Type 0
Marshals rows = (r : KaryawanRow) → Memᴰ r rows → marshals (raw_payload r) ≡ true

module _ (clock : Call → Time) (id : ℕ) where
  pull-calm :
      (i : ℕ) (rows : List KaryawanRow) (n : ℕ) (m : Time) (t : List Record)
      → Marshals rows
      → (n' : ℕ) × (m' : Time) × (t' : List Record) × (pull (calm clock id) i rows n m t
          ≡ done n' m' t')
  unfolding pull
  pull-calm i [] n m t fit = (_, _, _, refl)
  pull-calm i (r ∷ rs) n m t fit =
      let (n', m', t', e) =
        pull-calm (i + 1) rs (n + 1) (later m r.updated_at)
          (upsert (clock (upsert_row i)) (to_karyawan r) t) (λ x l. fit x (Memᴰ.tail l)) in
      (n', m', t', rw (pull, fit r (Memᴰ.head refl)) e)

  -- With no fault a pass succeeds, if its fetch returns rows and none of their times is past the
  -- year 9999.
  pub sync_karyawan-succeeds :
      {S : Type 0} (i : Source S) (s : Syncer S) (db : Db) (rows : List KaryawanRow)
      → i.fetch s.src (watermark_of s.resource db) ≡ ok rows
      → Marshals rows
      → (sync_karyawan i (calm clock id) s db).error ≡ none
  unfolding sync_karyawan open_tx take_lock start with_watermark with_rows finish_pull finish
      close_run conclude run_statement end_tx read_watermark
  sync_karyawan-succeeds i s db rows got fit =
      let (n, m, t, e) = pull-calm 0 rows 0 (watermark_of s.resource db) db.karyawan fit in
      rw (got, e)

-- The rows past a time.
abbrev pub remaining : Time → List KaryawanRow → ℕ
remaining m table = length (select (λ r. ltb m r.updated_at) table)

remaining_mono :
    (m m' : Time) (table : List KaryawanRow) → m ≤ m' → remaining m' table ≤ remaining m table
remaining_mono m m' [] h = ground arith
remaining_mono m m' (r ∷ rs) h = ground (arith, remaining_mono m m' rs h)

remaining-strict :
    (m m' : Time) (table : List KaryawanRow) (a : KaryawanRow)
    → Memᴰ a table
    → m < a.updated_at
    → a.updated_at ≤ m'
    → remaining m' table < remaining m table
remaining-strict m m' (r ∷ rs) a (Memᴰ.head e) low high =
    ground (arith, remaining_mono m m' rs (omega arith), ap (λ (x : KaryawanRow). x.updated_at) e)
remaining-strict m m' (r ∷ rs) a (Memᴰ.tail l) low high =
    ground (arith, remaining-strict m m' rs a l low high)
remaining-strict m m' [] a l low high = absurd (Memᴰ.not-nil l)

remaining-none :
    (m : Time) (table : List KaryawanRow)
    → ((r : KaryawanRow) → Memᴰ r table → r.updated_at ≤ m)
    → remaining m table ≡ 0
remaining-none m [] h = refl
remaining-none m (r ∷ rs) h =
    ground (arith, h r (Memᴰ.head refl), remaining-none m rs (λ x l. h x (Memᴰ.tail l)))

none-remaining :
    (m : Time) (table : List KaryawanRow) (r : KaryawanRow)
    → remaining m table ≡ 0
    → Memᴰ r table
    → r.updated_at ≤ m
none-remaining m table r h l = elim (dec_le r.updated_at m) [
  | yes before ↦ before
  | no after ↦
      absurd (omega (arith, remaining-strict m r.updated_at table r l (omega arith) (omega arith)))
]

scan_rows-no_faults : (n : ℕ) (rows : List KaryawanRow) → scan_rows (λ n. none) n rows ≡ ok rows
unfolding scan_rows
scan_rows-no_faults n [] = refl
scan_rows-no_faults n (r ∷ rs) = rw (scan_rows-no_faults (n + 1) rs)

module _ (le : Text → Text → Bool) (table : List KaryawanRow) where
  fetch-no_faults :
      (c : Client) (since : Time)
      → fetch_karyawan_updated_since le no_faults table c since
        ≡ ok (take (pos_part c.batch_size) (pending le since table))
  unfolding fetch_karyawan_updated_since karyawan_query
  fetch-no_faults c since = rw (scan_rows-no_faults 0 _)

  module _ (clocks : ℕ → Call → Time) (ids : ℕ → ℕ) (s : Syncer Client) where
    -- Pass after pass.
    pub passes : ℕ → ℕ → Db → Db
    passes zero i db = db
    passes (suc n) i db =
        passes n (i + 1) (sync_karyawan (vps le table no_faults) (calm (clocks i) (ids i)) s db).db

    abbrev limit : ℕ
    limit = pos_part s.src.batch_size

    first : (n : ℕ) (a : KaryawanRow) (rows : List KaryawanRow) → 0 < n → Memᴰ a (take n (a ∷ rows))
    first zero a rows h = absurd (omega (arith, h))
    first (suc n) a rows h = Memᴰ.head refl

    -- A pass leaves fewer rows to fetch, if there are any.
    pass-remaining :
        (mark n : ℕ)
        → 0 < limit
        → remaining mark table ≤ suc n
        → remaining (newest mark (take limit (pending le mark table))) table ≤ n
    pass-remaining mark n positive few = go (pending le mark table) refl
      where
        old : (r : KaryawanRow) → pending le mark table ≡ [] → Memᴰ r table → r.updated_at ≤ mark
        old r e l = elim (dec_lt mark r.updated_at) [
          | yes newer ↦ absurd (Memᴰ.not-nil (rw e at (mem-pending le mark l newer)))
          | no before ↦ omega arith
        ]

        go :
            (rows : List KaryawanRow)
            → pending le mark table ≡ rows
            → remaining (newest mark (take limit (pending le mark table))) table ≤ n
        go [] e = omega (
          arith,
          remaining-none mark table (λ r l. old r e l),
          remaining_mono mark (newest mark (take limit (pending le mark table))) table
              (le-newest mark (take limit (pending le mark table))),
        )
        go (a ∷ rows) e =
            let taken : Memᴰ a (take limit (pending le mark table)) =
              rw e (first limit a rows positive) in
            let (listed, newer) =
              pending-mem le mark a table (subst (Memᴰ a) (sym e) (Memᴰ.head refl)) in
            omega (
              arith,
              few,
              remaining-strict mark (newest mark (take limit (pending le mark table))) table a
                  listed newer (mem-le-newest mark (take limit (pending le mark table)) a taken),
            )

    -- Let NIK_HRIS be a key of the VPS's table, no time in it past the year 9999, the LIMIT
    -- positive and never cutting through rows of one time, and the mirror complete up to the
    -- watermark. As many passes without a fault as there are rows past the watermark, or more,
    -- leave every row of the VPS in the mirror.
    pub passes_complete :
        (n i : ℕ) (db : Db) (r : KaryawanRow)
        → IsTable table
        → Marshals table
        → 0 < limit
        → ((since : Time) → IsCleanCut le table since limit)
        → remaining (watermark_of s.resource db) table ≤ n
        → IsCovered table (watermark_of s.resource db) db.karyawan
        → Memᴰ r table
        → IsMirrored (passes n i db).karyawan r
    unfolding passes
    passes_complete zero i db r keyed fit positive clean few old m =
        old r m (none-remaining _ table r (omega arith) m)
    passes_complete (suc n) i db r keyed fit positive clean few old m =
        let w = calm (clocks i) (ids i) in
        let mark = watermark_of s.resource db in
        let rows = take limit (pending le mark table) in
        let fine =
          sync_karyawan-succeeds (clocks i) (ids i) (vps le table no_faults) s db rows
            (fetch-no_faults s.src mark) (λ x l. fit x (taken-mem le table mark limit x l)) in
        let (_, marked) = passed le table no_faults w s db fine in
        passes_complete n (i + 1) _ r keyed fit positive clean
          (rw marked (pass-remaining mark n positive few))
          (sync_karyawan-IsCovered le table no_faults w s db keyed (clean mark) old fine) m
