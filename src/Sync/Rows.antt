-- ===== src/Sync/Rows.antt =====
-- The conversions of a fetched row: `nullStr`, `nullTime`, `nullTimePtr`, the raw payload and the
-- employee that SyncKaryawan of internal/sync/sync.go builds.
use gateway_login.Base.{
  Bool, true, ◌&&◌, Option, none, some, [], ◌∷◌, ◌++◌, Text, codes, if◌then◌else◌, ltb,
}
use gateway_login.Postgres.{Time, seconds}
use gateway_login.Karyawan.{JsonValue, null, string, time, Payload, Karyawan}
use gateway_login.Vps.{NullString, NullTime, KaryawanRow}

unfoldable pub null_str : NullString → Text
null_str ns = if ns.valid then ns.string else []

unfoldable pub null_time : NullTime → JsonValue
null_time nt = if nt.valid then time nt.time else null

unfoldable pub null_time_ptr : NullTime → Option Time
null_time_ptr nt = if nt.valid then some nt.time else none

-- The keys in the order of `json.Marshal`.
unfoldable pub raw_payload : KaryawanRow → Payload
unfolding null_str null_time
raw_payload r =
    (codes "GENDER", string (null_str r.gender))
    ∷ (codes "LOKASI", string (null_str r.lokasi))
    ∷ (codes "NAMA_DEPARTEMEN", string (null_str r.nama_departemen))
    ∷ (codes "NAMA_JABATAN", string (null_str r.nama_jabatan))
    ∷ (codes "NAMA_KARYAWAN", string r.nama_karyawan)
    ∷ (codes "NIK_HRIS", string r.nik_hris)
    ∷ (codes "NIK_SANTOS", string (null_str r.nik_santos))
    ∷ (codes "TGL_BERGABUNG", null_time r.tgl_bergabung)
    ∷ (codes "TGL_KELUAR", null_time r.tgl_keluar)
    ∷ (codes "updated_at", time r.updated_at)
    ∷ []

-- The first instant of the year 10000: `json.Marshal` refuses a time from there on.
abbrev pub year_10000 : Time
year_10000 = seconds 315537897600

json_fits : JsonValue → Bool
json_fits null = true
json_fits (string s) = true
json_fits (time t) = ltb t year_10000

unfoldable pub marshals : Payload → Bool
unfolding json_fits
marshals [] = true
marshals ((k, v) ∷ p) = json_fits v && marshals p

abbrev pub marshal_error : Text
marshal_error =
    codes "json: error calling MarshalJSON for type time.Time: Time.MarshalJSON: "
    ++ codes "year outside of range [0,9999]"

unfoldable pub to_karyawan : KaryawanRow → Karyawan
unfolding null_str null_time_ptr raw_payload
to_karyawan r = record {
  nik_hris = r.nik_hris;
  nik_santos = null_str r.nik_santos;
  nama_karyawan = r.nama_karyawan;
  nama_departemen = null_str r.nama_departemen;
  nama_jabatan = null_str r.nama_jabatan;
  tgl_bergabung = null_time_ptr r.tgl_bergabung;
  tgl_keluar = null_time_ptr r.tgl_keluar;
  lokasi = null_str r.lokasi;
  gender = null_str r.gender;
  source_updated_at = some r.updated_at;
  synced_at = 0;
  raw_payload = some (raw_payload r);
}
