-- ===== src/Api/Wire/Tests.antt =====
-- The bytes of concrete responses.
use gateway_login.Base.{◌≡◌, refl, none, some, [], ◌∷◌, codes, pos, negsuc, arith}
use gateway_login.Api.View.{KaryawanView, Response, error_code, list_body}
use gateway_login.Api.Json.{escaped, escape_byte, print}
use gateway_login.Api.Wire.{body_text, write_json, error_json}
use gateway_login.Api.Wire.Client.{read_body}
use gateway_login.Api.Wire.Handlers.{read_body-handlers}
use gateway_login.Api.Handlers.{handle_list, handle_get}
use gateway_login.Karyawan.Query.Page.{no_faults}
use gateway_login.Samples.{postgres}
use gateway_login.Api.Wire.Laws.{cleaned_body, read_body-write_json}

-- `a"<` with U+2028, and a byte that begins no character.
abbrev employee : KaryawanView
employee = record {
  nik_hris = codes "k1";
  nik_santos = [];
  nama_karyawan = b'a' ∷ b'"' ∷ b'<' ∷ 226 ∷ 128 ∷ 168 ∷ 255 ∷ [];
  nama_departemen = [];
  nama_jabatan = [];
  tgl_bergabung = some (codes "2024-01-31");
  tgl_keluar = none;
  lokasi = [];
  gender = codes "L";
}

name_written : escaped 0 0 employee.nama_karyawan ≡ codes "a\\\"\\u003c\\u2028\\ufffd"
unfolding escaped escape_byte
name_written = refl

error_written : body_text (error_code (codes "not_found")) ≡ codes "{\"error\":\"not_found\"}\n"
unfolding body_text error_json print escaped escape_byte
error_written = refl

abbrev page : Response
page = record {
  status = 200;
  body = list_body (record { rows = employee ∷ []; total = 1; limit = pos 50; offset = negsuc 0 });
}

read_body-write_json_test :
    (read_body (write_json page).bytes ≡ some (cleaned_body page.body))
    × ((write_json page).status ≡ 200)
    × ((write_json page).content_type ≡ some (codes "application/json"))
read_body-write_json_test = read_body-write_json page (omega arith, omega arith, omega arith)

read_body-handlers_example :
    (read_body (write_json (handle_list postgres no_faults [] [])).bytes
      ≡ some (cleaned_body (handle_list postgres no_faults [] []).body))
    × (read_body (write_json (handle_get none [] (codes "k1"))).bytes
        ≡ some (cleaned_body (handle_get none [] (codes "k1")).body))
read_body-handlers_example =
    read_body-handlers postgres no_faults none [] [] (codes "k1") (omega arith)
