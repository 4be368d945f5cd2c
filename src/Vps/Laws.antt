-- ===== src/Vps/Laws.antt =====
-- What the query for new rows returns.
use mathlib.Core.List.{Memᴰ}
use gateway_login.Base.{
  ℕ, ◌+◌, ◌≤◌, ◌<◌, ◌≡◌, Bool, Option, List, [], ◌∷◌, Text, inl, inr, arith, Option-cases, ok,
  >>=-ok, ltb, ltb→lt, lt→ltb, pos_part, take, select, sort_by, mem-select, select-mem, length,
  length-select, length-sort_by, mem-sort_by, sort_by-mem, IsSorted, sort_by-IsSorted,
}
use gateway_login.Postgres.{Time}
use gateway_login.Vps.{
  KaryawanRow, Client, Faults, scan_rows, row_le, karyawan_query, fetch_karyawan_updated_since,
}

scan_rows-ok :
    (scan : ℕ → Option Text) (n : ℕ) (rows out : List KaryawanRow)
    → scan_rows scan n rows ≡ ok out
    → out ≡ rows
unfolding scan_rows
scan_rows-ok scan n [] out h = cc
scan_rows-ok scan n (r ∷ rs) out h = elim (Option-cases (scan n)) [
  | inr (e, broken) ↦ absurd (cc (rw (broken, scan_rows) at h))
  | inl fine ↦
      let (l, same, got) = >>=-ok _ (scan_rows scan (n + 1) rs) (rw (fine, scan_rows) at h) in
      cc (scan_rows-ok scan (n + 1) rs l got)
]

module _ (le : Text → Text → Bool) where
  -- The rows past a time, in the order of the query, before its LIMIT.
  abbrev pub pending : Time → List KaryawanRow → List KaryawanRow
  pending since table = sort_by (row_le le) (select (λ r. ltb since r.updated_at) table)

  abbrev NotLater : KaryawanRow → KaryawanRow → Type 0
  NotLater a b = a.updated_at ≤ b.updated_at

  -- The query returns rows in the order of `updated_at`.
  pub pending-IsSorted :
      (since : Time) (table : List KaryawanRow)
      → IsSorted (λ a b. a.updated_at ≤ b.updated_at) (pending since table)
  unfolding row_le
  pending-IsSorted since table =
      sort_by-IsSorted (λ a b. a.updated_at ≤ b.updated_at) (row_le le) (λ a b c p q. omega arith)
        (λ a b h. ground arith) (λ a b h. ground arith) (select (λ r. ltb since r.updated_at) table)

  pub mem-pending :
      (since : Time) {r : KaryawanRow} {table : List KaryawanRow}
      → Memᴰ r table
      → since < r.updated_at
      → Memᴰ r (pending since table)
  mem-pending since {r} m later =
      mem-sort_by (row_le le) (mem-select _ m (lt→ltb since r.updated_at later))

  pub pending-mem :
      (since : Time) (r : KaryawanRow) (table : List KaryawanRow)
      → Memᴰ r (pending since table)
      → Memᴰ r table × (since < r.updated_at)
  pending-mem since r table m =
      let (l, t) = select-mem _ r table (sort_by-mem (row_le le) r _ m) in
      (l, ltb→lt since r.updated_at t)

  pub length-pending :
      (since : Time) (table : List KaryawanRow) → length (pending since table) ≤ length table
  length-pending since table = omega (
    arith,
    length-sort_by (row_le le) (select (λ r. ltb since r.updated_at) table),
    length-select (λ r. ltb since r.updated_at) table,
  )

  -- A fetch that returns rows returns those of the query, the first ones up to its limit.
  pub fetch-ok :
      (faults : Faults) (table : List KaryawanRow) (c : Client) (since : Time)
      (rows : List KaryawanRow)
      → fetch_karyawan_updated_since le faults table c since ≡ ok rows
      → rows ≡ take (pos_part c.batch_size) (pending since table)
  unfolding fetch_karyawan_updated_since karyawan_query
  fetch-ok faults table c since rows h = elim (Option-cases faults.query) [
    | inr (e, broken) ↦ absurd (cc (rw broken at h))
    | inl fine ↦
        let page = take (pos_part c.batch_size) (pending since table) in
        let (l, same, got) = >>=-ok _ (scan_rows faults.scan 0 page) (rw fine at h) in
        ground (arith, scan_rows-ok faults.scan 0 page l got, same)
  ]
