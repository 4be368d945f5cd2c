-- ===== src/Api/View.antt =====
-- The responses of internal/api/handlers.go, as a client receives them.
use mathlib.Core.Option
use gateway_login.Base.{ℕ, Option, List, Text, ℤ}
use gateway_login.Karyawan.{Karyawan}
use gateway_login.Api.Date.{format_date}

pub record KaryawanView : Type 0 where
  pub nik_hris : Text
  pub nik_santos : Text
  pub nama_karyawan : Text
  pub nama_departemen : Text
  pub nama_jabatan : Text
  pub tgl_bergabung : Option Text
  pub tgl_keluar : Option Text
  pub lokasi : Text
  pub gender : Text

unfoldable pub to_view : Karyawan → KaryawanView
to_view k = record {
  nik_hris = k.nik_hris;
  nik_santos = k.nik_santos;
  nama_karyawan = k.nama_karyawan;
  nama_departemen = k.nama_departemen;
  nama_jabatan = k.nama_jabatan;
  tgl_bergabung = Option.map (λ t. format_date t) k.tgl_bergabung;
  tgl_keluar = Option.map (λ t. format_date t) k.tgl_keluar;
  lokasi = k.lokasi;
  gender = k.gender;
}

pub record ListResponse : Type 0 where
  pub rows : List KaryawanView
  pub total : ℕ
  pub limit : ℤ
  pub offset : ℤ

-- The value that is written as JSON, or a plain text.
pub data Body : Type 0 where
  error_code : Text → Body
  list_body : ListResponse → Body
  view_body : KaryawanView → Body
  plain : Text → Body

pub record Response : Type 0 where
  pub status : ℕ
  pub body : Body

-- `writeErr`
unfoldable pub write_err : ℕ → Text → Response
write_err status code = record { status = status; body = error_code code }
