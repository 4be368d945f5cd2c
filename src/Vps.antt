-- ===== src/Vps.antt =====
-- internal/vpsmysql/client.go: the rows of `sja.m_karyawan` and the queries that read them.
pub mod Laws
pub mod Connect
use gateway_login.Base.{
  ℕ, ◌+◌, Bool, ◌&&◌, ◌||◌, Option, none, some, List, [], ◌∷◌, ◌++◌, Text, text_eq, codes, Result,
  ok, err, map_err, ◌>>=◌, if◌then◌else◌, ltb, ◌==◌, ℤ, pos, pos_part, leb_ℤ, ltb_ℤ, take, select,
  sort_by,
}
use gateway_login.Postgres.{Time}

-- sql.NullString and sql.NullTime
pub record NullString : Type 0 where
  pub string : Text
  pub valid : Bool

pub record NullTime : Type 0 where
  pub time : Time
  pub valid : Bool

pub record KaryawanRow : Type 0 where
  pub nik_hris : Text
  pub nik_santos : NullString
  pub nama_karyawan : Text
  pub nama_departemen : NullString
  pub nama_jabatan : NullString
  pub tgl_bergabung : NullTime
  pub tgl_keluar : NullTime
  pub lokasi : NullString
  pub gender : NullString
  pub updated_at : Time

pub record Client : Type 0 where
  pub batch_size : ℤ

-- `open` and `ping` are the errors of `sql.Open` and `PingContext`.
unfoldable pub new_client : Option Text → Option Text → ℤ → Result Text Client
new_client (some e) ping batch_size = err (codes "open mysql: " ++ e)
new_client none (some e) batch_size = err (codes "ping mysql: " ++ e)
new_client none none batch_size =
    ok (record { batch_size = if leb_ℤ batch_size (pos 0) then pos 500 else batch_size })

unfoldable pub set_batch_size : ℤ → Client → Client
set_batch_size n c = if ltb_ℤ (pos 0) n then record c { batch_size = n } else c

-- The errors of a query over rows: of the query, of the scan of the n-th row, of `rows.Err()`.
pub record Faults : Type 0 where
  pub query : Option Text
  pub scan : ℕ → Option Text
  pub rows : Option Text

abbrev pub no_faults : Faults
no_faults = record { query = none; scan = λ n. none; rows = none }

-- `for rows.Next() { … rows.Scan(…) … }`
unfoldable pub scan_rows : (ℕ → Option Text) → ℕ → List KaryawanRow → Result Text (List KaryawanRow)
scan_rows scan n [] = ok []
scan_rows scan n (r ∷ rs) = elim (scan n) [
  | some e ↦ err (codes "scan: " ++ e)
  | none ↦ do out ← scan_rows scan (n + 1) rs; ok (r ∷ out)
]

-- `le` is the collation of MySQL.
module _ (le : Text → Text → Bool) where
  -- ORDER BY updated_at ASC, NIK_HRIS ASC
  unfoldable pub row_le : KaryawanRow → KaryawanRow → Bool
  row_le a b =
      ltb a.updated_at b.updated_at || (a.updated_at == b.updated_at && le a.nik_hris b.nik_hris)

  -- WHERE updated_at > ? ORDER BY updated_at ASC, NIK_HRIS ASC LIMIT ?
  unfoldable pub karyawan_query : Time → ℤ → List KaryawanRow → List KaryawanRow
  unfolding row_le
  karyawan_query since limit table =
      take (pos_part limit) (sort_by row_le (select (λ r. ltb since r.updated_at) table))

  unfoldable pub fetch_karyawan_updated_since :
      Faults → List KaryawanRow → Client → Time → Result Text (List KaryawanRow)
  unfolding scan_rows
  fetch_karyawan_updated_since faults table c since = elim faults.query [
    | some e ↦ err (codes "query karyawan: " ++ e)
    | none ↦ do
      out ← scan_rows faults.scan 0 (karyawan_query since c.batch_size table)
      elim faults.rows [ none ↦ ok out | some e ↦ err e ]
  ]

-- WHERE NIK_HRIS = ? LIMIT 1
unfoldable pub row_of_nik : Text → List KaryawanRow → Option KaryawanRow
row_of_nik nik [] = none
row_of_nik nik (r ∷ rs) = if text_eq r.nik_hris nik then some r else row_of_nik nik rs

-- No row is no error: the answer is nil.
unfoldable pub fetch_karyawan_by_nik :
    Option Text → List KaryawanRow → Text → Result Text (Option KaryawanRow)
unfolding row_of_nik
fetch_karyawan_by_nik (some e) table nik = err (codes "query by nik: " ++ e)
fetch_karyawan_by_nik none table nik = ok (row_of_nik nik table)

-- SELECT MAX(updated_at), NULL over no rows.
unfoldable pub max_of : List KaryawanRow → Option Time
max_of [] = none
max_of (r ∷ rs) = elim (max_of rs) [
  | none ↦ some r.updated_at
  | some m ↦ some (if ltb m r.updated_at then r.updated_at else m)
]

-- The zero time if the table is empty.
unfoldable pub max_updated_at : Option Text → List KaryawanRow → Result Text Time
unfolding max_of
max_updated_at (some e) table = err (codes "max updated_at: " ++ e)
max_updated_at none table = elim (max_of table) [ none ↦ ok 0 | some t ↦ ok t ]
