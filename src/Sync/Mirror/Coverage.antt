-- ===== src/Sync/Mirror/Coverage.antt =====
-- One pass over the VPS: SyncKaryawan of internal/sync/sync.go with the source of
-- internal/vpsmysql/client.go, and which rows are in the mirror after it.
use mathlib.Core.List.{Memᴰ}
use mathlib.Core.List.Memᴰ
use native.Mathlib.Decide.{dec_le}
use gateway_login.Base.{
  ℕ, ◌≤◌, ◌<◌, ◌≡◌, ◌≢◌, refl, sym, Bool, none, some, List, [], ◌∷◌, Text, text_eq_refl, ◌⊎◌, inl,
  inr, arith, pos_part, take, drop, take-append-drop, take_all, drop_all, IsSorted-append, length,
}
use gateway_login.Postgres.{Time}
use gateway_login.Karyawan.Table.{Record}
use gateway_login.Vps.{KaryawanRow, Client, Faults, set_batch_size, fetch_karyawan_updated_since}
use gateway_login.Vps.Laws.{
  pending, pending-IsSorted, length-pending, mem-pending, pending-mem, fetch-ok,
}
use gateway_login.Sync.Store.{Db}
use gateway_login.Sync.Run.{World, Source, Syncer, later, watermark_of, sync_karyawan}
use gateway_login.Sync.Watermark.{newest, upserts, sync_karyawan-Kept}
use gateway_login.Sync.Mirror.{IsMirrored, IsTable, upserts-IsMirrored, upserts-IsMirrored_old}

newest-lt :
    (m : Time) (rows : List KaryawanRow) (b : Time)
    → m < b
    → ((a : KaryawanRow) → Memᴰ a rows → a.updated_at < b)
    → newest m rows < b
unfolding newest
newest-lt m [] b h k = h
newest-lt m (r ∷ rs) b h k =
    newest-lt (later m r.updated_at) rs b (ground (arith, k r (Memᴰ.head refl)))
      (λ a l. k a (Memᴰ.tail l))

pub le-newest : (m : Time) (rows : List KaryawanRow) → m ≤ newest m rows
unfolding newest
le-newest m [] = omega arith
le-newest m (r ∷ rs) = ground (arith, le-newest (later m r.updated_at) rs)

pub mem-le-newest :
    (m : Time) (rows : List KaryawanRow) (a : KaryawanRow)
    → Memᴰ a rows
    → a.updated_at ≤ newest m rows
unfolding newest
mem-le-newest m (r ∷ rs) a (Memᴰ.head e) =
    rw e (ground (arith, le-newest (later m r.updated_at) rs))
mem-le-newest m (r ∷ rs) a (Memᴰ.tail l) = mem-le-newest (later m r.updated_at) rs a l
mem-le-newest m [] a l = absurd (Memᴰ.not-nil l)

-- The mirror has every row of the source up to a time.
abbrev pub IsCovered : List KaryawanRow → Time → List Record → Type 0
IsCovered table mark mirror =
    (r : KaryawanRow) → Memᴰ r table → r.updated_at ≤ mark → IsMirrored mirror r

module _ (le : Text → Text → Bool) (table : List KaryawanRow) where
  -- The LIMIT leaves no row behind that has the time of one before it.
  abbrev pub IsCleanCut : Time → ℕ → Type 0
  IsCleanCut since n =
      (a b : KaryawanRow)
      → Memᴰ a (take n (pending le since table))
      → Memᴰ b (drop n (pending le since table))
      → a.updated_at ≢ b.updated_at

  -- A LIMIT that no fetch reaches cuts nothing.
  pub IsCleanCut-of_small : (since : Time) (n : ℕ) → length table ≤ n → IsCleanCut since n
  IsCleanCut-of_small since n small a b l m =
      let few : length (pending le since table) ≤ n =
        omega (arith, length-pending le since table) in
      absurd (Memᴰ.not-nil (rw (drop_all n (pending le since table) few) at m))

  module _ (since : Time) (n : ℕ) where
    -- What is left behind by a clean cut is newer than all that is taken.
    drop-newer :
        (b : KaryawanRow)
        → IsCleanCut since n
        → Memᴰ b (drop n (pending le since table))
        → newest since (take n (pending le since table)) < b.updated_at
    drop-newer b clean m =
        let rows = pending le since table in
        let whole = Memᴰ.append_right (take n rows) m in
        let (_, later) = pending-mem le since b table (rw (take-append-drop n rows) at whole) in
        newest-lt since (take n rows) b.updated_at later (λ a l. omega (
          arith,
          clean a b l m,
          IsSorted-append (λ x y. x.updated_at ≤ y.updated_at) (take n rows) (drop n rows) a b
              (rw (take-append-drop n rows) (pending-IsSorted le since table)) l m,
        ))

    pub taken-mem : (x : KaryawanRow) → Memᴰ x (take n (pending le since table)) → Memᴰ x table
    taken-mem x l =
        let rows = pending le since table in
        (pending-mem le since x table
          (rw (take-append-drop n rows) at (Memᴰ.append_left (drop n rows) l))).0

    IsCovered-after :
        (w : World) (mirror : List Record)
        → IsTable table
        → IsCleanCut since n
        → IsCovered table since mirror
        → IsCovered table
            (newest since (take n (pending le since table)))
            (upserts w 0 (take n (pending le since table)) mirror)
    IsCovered-after w mirror keyed clean old r m bound = elim (dec_le r.updated_at since) [
      | yes before ↦ upserts-IsMirrored_old w 0 taken mirror r agree (old r m before)
      | no after ↦ pick (
          Memᴰ.append_cases taken (
            rw (take-append-drop n (pending le since table))
              (mem-pending le since m (omega arith))))
    ]
      where
        taken : List KaryawanRow
        taken = take n (pending le since table)

        agree : (x : KaryawanRow) → Memᴰ x taken → x.nik_hris ≡ r.nik_hris → r ≡ x
        agree x l e = sym (keyed x r (taken-mem x l) m e)

        pick :
            Memᴰ r taken ⊎ Memᴰ r (drop n (pending le since table))
            → IsMirrored (upserts w 0 taken mirror) r
        pick (inl l) = upserts-IsMirrored w 0 taken mirror r agree l
        pick (inr l) = absurd (omega (arith, drop-newer r clean l))

-- The VPS as a source of passes, with the faults of its queries.
module _ (le : Text → Text → Bool) (table : List KaryawanRow) (faults : Faults) where
  abbrev pub vps : Source Client
  vps = record { fetch = fetch_karyawan_updated_since le faults table; sizer = some set_batch_size }

  module _ (w : World) (s : Syncer Client) (db : Db) where
    abbrev mark : Time
    mark = watermark_of s.resource db

    abbrev limit : ℕ
    limit = pos_part s.src.batch_size

    abbrev next : Db
    next = (sync_karyawan vps w s db).db

    -- What a successful pass over the VPS has done.
    pub passed :
        (sync_karyawan vps w s db).error ≡ none
        → (next.karyawan ≡ upserts w 0 (take limit (pending le mark table)) db.karyawan)
          × (watermark_of s.resource next ≡ newest mark (take limit (pending le mark table)))
    passed h =
        let (rows, got, _, stored, marks) = (sync_karyawan-Kept vps w s db).success h in
        let same = fetch-ok le faults table s.src mark rows got in
        let marked = marks s.resource in
        (rw (← same) stored, rw (← same) (rw text_eq_refl at marked))

    -- If NIK_HRIS is a key of the VPS's table, the mirror is complete up to the watermark, and the
    -- LIMIT does not cut through rows of one time, then after a pass that succeeds the mirror is
    -- complete up to the new watermark.
    pub sync_karyawan-IsCovered :
        IsTable table
        → IsCleanCut le table mark limit
        → IsCovered table mark db.karyawan
        → (sync_karyawan vps w s db).error ≡ none
        → IsCovered table (watermark_of s.resource next) next.karyawan
    sync_karyawan-IsCovered keyed clean old h =
        let (stored, marked) = passed h in
        rw (stored, marked) (IsCovered-after le table mark limit w db.karyawan keyed clean old)

    -- If NIK_HRIS is a key of the VPS's table and the mirror is complete up to the watermark, a
    -- pass that succeeds and has no more rows to fetch than its LIMIT leaves every row of the VPS
    -- in the mirror.
    pub sync_karyawan_complete :
        (r : KaryawanRow)
        → IsTable table
        → length (pending le mark table) ≤ limit
        → IsCovered table mark db.karyawan
        → (sync_karyawan vps w s db).error ≡ none
        → Memᴰ r table
        → IsMirrored next.karyawan r
    sync_karyawan_complete r keyed few old h m =
        sync_karyawan-IsCovered keyed
          (λ a b l k. absurd (Memᴰ.not-nil (rw (drop_all limit (pending le mark table) few) at k)))
          old h r m reached
      where
        reached : r.updated_at ≤ watermark_of s.resource next
        reached = elim (dec_le r.updated_at mark) [
          | yes before ↦
              omega (arith, (passed h).1, le-newest mark (take limit (pending le mark table)))
          | no after ↦ omega (
            arith,
            (passed h).1,
            mem-le-newest mark (take limit (pending le mark table)) r (
                rw (take_all limit (pending le mark table) few)
                  (mem-pending le mark m (omega arith))),
          )
        ]
