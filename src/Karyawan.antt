-- ===== src/Karyawan.antt =====
-- internal/karyawan: the employee as the program sees it (model.go), the row that the table
-- `karyawan` of internal/db/migrations/0001_init.up.sql keeps, and the repository (repo.go).
pub mod Table
pub mod Query
mod Tests
use gateway_login.Base.{ℕ, Bool, true, false, Option, none, some, List, [], ◌∷◌, Text, ℤ}
use gateway_login.Postgres.{Time}

-- The values of a JSON object that the program writes.
pub data JsonValue : Type 0 where
  null : JsonValue
  string : Text → JsonValue
  time : Time → JsonValue

-- A JSON object, its keys in the order of `json.Marshal`.
abbrev pub Payload : Type 0
Payload = List (Text × JsonValue)

-- `raw_payload = none` is a `json.RawMessage` of length 0.
pub record Karyawan : Type 0 where
  pub nik_hris : Text
  pub nik_santos : Text
  pub nama_karyawan : Text
  pub nama_departemen : Text
  pub nama_jabatan : Text
  pub tgl_bergabung : Option Time
  pub tgl_keluar : Option Time
  pub lokasi : Text
  pub gender : Text
  pub source_updated_at : Option Time
  pub synced_at : Time
  pub raw_payload : Option Payload

-- Still employed.
unfoldable pub active : Karyawan → Bool
active k = elim k.tgl_keluar [ none ↦ true | some _ ↦ false ]

pub record Filter : Type 0 where
  pub nik_hris : Text
  pub nik_santos : Text
  pub nama_karyawan : Text
  pub departemen : Text
  pub jabatan : Text
  pub lokasi : Text
  pub status_aktif : Option Bool
  pub limit : ℤ
  pub offset : ℤ

-- The errors of the repository: the sentinel `ErrNotFound`, or another error with its text.
pub data RepoError : Type 0 where
  not_found : RepoError
  failed : Text → RepoError
