-- ===== src/Karyawan/Table.antt =====
-- The table `karyawan`, the statement of `Repo.Upsert`, and `Repo.GetByNIK` with `scanOne`.
pub mod Laws
use mathlib.Core.Option
use gateway_login.Base.{
  ℕ, ◌≡◌, Bool, true, false, Option, none, some, List, [], ◌∷◌, ◌++◌, Text, text_eq, codes, Result,
  ok, err, if◌then◌else◌,
}
use gateway_login.Postgres.{Time, date_of}
use gateway_login.Karyawan.{Payload, Karyawan, RepoError, not_found, failed}

-- A row: the columns that may be NULL are options.
pub record Record : Type 0 where
  pub nik_hris : Text
  pub nik_santos : Option Text
  pub nama_karyawan : Text
  pub nama_departemen : Option Text
  pub nama_jabatan : Option Text
  pub tgl_bergabung : Option Time
  pub tgl_keluar : Option Time
  pub lokasi : Option Text
  pub gender : Option Text
  pub source_updated_at : Option Time
  pub synced_at : Time
  pub raw_payload : Option Payload

-- `if len(raw) == 0 { raw = json.RawMessage("{}") }`
abbrev payload_or_empty : Option Payload → Payload
payload_or_empty none = []
payload_or_empty (some p) = p

-- The VALUES of the statement; `synced_at` has its default, the server's `now()`.
unfoldable pub inserted : Time → Karyawan → Record
inserted now k = record {
  nik_hris = k.nik_hris;
  nik_santos = some k.nik_santos;
  nama_karyawan = k.nama_karyawan;
  nama_departemen = some k.nama_departemen;
  nama_jabatan = some k.nama_jabatan;
  tgl_bergabung = Option.map (λ t. date_of t) k.tgl_bergabung;
  tgl_keluar = Option.map (λ t. date_of t) k.tgl_keluar;
  lokasi = some k.lokasi;
  gender = some k.gender;
  source_updated_at = k.source_updated_at;
  synced_at = now;
  raw_payload = some (payload_or_empty k.raw_payload);
}

-- ON CONFLICT (nik_hris) DO UPDATE SET …, with EXCLUDED the row that was to be inserted.
unfoldable pub updated : Time → Record → Record → Record
updated now excluded r = record r {
  nik_santos = excluded.nik_santos;
  nama_karyawan = excluded.nama_karyawan;
  nama_departemen = excluded.nama_departemen;
  nama_jabatan = excluded.nama_jabatan;
  tgl_bergabung = excluded.tgl_bergabung;
  tgl_keluar = excluded.tgl_keluar;
  lokasi = excluded.lokasi;
  gender = excluded.gender;
  source_updated_at = excluded.source_updated_at;
  synced_at = now;
  raw_payload = excluded.raw_payload;
}

unfoldable pub upsert : Time → Karyawan → List Record → List Record
upsert now k [] = inserted now k ∷ []
upsert now k (r ∷ rs) =
    let rest = upsert now k rs in
    if text_eq r.nik_hris k.nik_hris then updated now (inserted now k) r ∷ rs else r ∷ rest

-- WHERE nik_hris = $1
unfoldable pub find : Text → List Record → Option Record
find nik [] = none
find nik (r ∷ rs) = if text_eq r.nik_hris nik then some r else find nik rs

-- COALESCE(column, '')
abbrev pub coalesce : Option Text → Text
coalesce none = []
coalesce (some t) = t

-- The columns of a SELECT, scanned into a `Karyawan`.
unfoldable pub scanned : Record → Karyawan
scanned r = record {
  nik_hris = r.nik_hris;
  nik_santos = coalesce r.nik_santos;
  nama_karyawan = r.nama_karyawan;
  nama_departemen = coalesce r.nama_departemen;
  nama_jabatan = coalesce r.nama_jabatan;
  tgl_bergabung = r.tgl_bergabung;
  tgl_keluar = r.tgl_keluar;
  lokasi = coalesce r.lokasi;
  gender = coalesce r.gender;
  source_updated_at = r.source_updated_at;
  synced_at = r.synced_at;
  raw_payload = r.raw_payload;
}

-- The answer of `QueryRow(…).Scan(…)`: no row is an error of its own.
scan_one : Option Record → Result RepoError Karyawan
scan_one none = err not_found
scan_one (some r) = ok (scanned r)

-- `fault` is the error of the database call, if it fails.
unfoldable pub get_by_nik : Option Text → Text → List Record → Result RepoError Karyawan
unfolding scan_one find
get_by_nik (some e) nik t = err (failed (codes "scan karyawan: " ++ e))
get_by_nik none nik t = scan_one (find nik t)
