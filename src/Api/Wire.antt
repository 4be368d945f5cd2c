-- ===== src/Api/Wire.antt =====
-- `writeJSON` and `writeErr` of internal/api/handlers.go: the bytes of a response, with the names of
-- the fields in the tags of its structs.
pub mod Client
pub mod Laws
pub mod Handlers
mod Tests
use gateway_login.Base.{ℕ, Option, none, some, List, [], ◌∷◌, ◌++◌, Text, codes, ℤ, pos}
use gateway_login.Api.View.{
  KaryawanView, ListResponse, Body, error_code, list_body, view_body, plain, Response,
}
use gateway_login.Api.Json.{
  Json, null, number, string, array, object, Elements, no_elements, element, Members, no_members,
  member, encode,
}

-- A `*string`
abbrev pub text_or_null : Option Text → Json
text_or_null none = null
text_or_null (some s) = string s

unfoldable pub view_json : KaryawanView → Json
view_json v = object (
    member (codes "nik_hris") (string v.nik_hris) (
      member (codes "nik_santos") (string v.nik_santos) (
        member (codes "nama_karyawan") (string v.nama_karyawan) (
          member (codes "nama_departemen") (string v.nama_departemen) (
            member (codes "nama_jabatan") (string v.nama_jabatan) (
              member (codes "tgl_bergabung") (text_or_null v.tgl_bergabung) (
                member (codes "tgl_keluar") (text_or_null v.tgl_keluar) (
                  member (codes "lokasi") (string v.lokasi)
                    (member (codes "gender") (string v.gender) no_members)))))))))

-- `out`, which is never nil
unfoldable pub views_json : List KaryawanView → Elements
views_json [] = no_elements
views_json (v ∷ vs) = element (view_json v) (views_json vs)

unfoldable pub list_json : ListResponse → Json
list_json r = object (
    member (codes "data") (array (views_json r.rows)) (
      member (codes "total") (number (pos r.total)) (
        member (codes "limit") (number r.limit)
          (member (codes "offset") (number r.offset) no_members))))

-- map[string]string{"error": code}
unfoldable pub error_json : Text → Json
error_json code = object (member (codes "error") (string code) no_members)

-- What is written after the header.
unfoldable pub body_text : Body → Text
body_text (error_code code) = encode (error_json code)
body_text (list_body r) = encode (list_json r)
body_text (view_body v) = encode (view_json v)
body_text (plain t) = t

-- What goes over the wire; the content type is set where a value is written as JSON.
pub record Sent : Type 0 where
  pub status : ℕ
  pub content_type : Option Text
  pub bytes : Text

abbrev content_type_of : Body → Option Text
content_type_of (plain t) = none
content_type_of _ = some (codes "application/json")

unfoldable pub write_json : Response → Sent
write_json r = record {
  status = r.status;
  content_type = content_type_of r.body;
  bytes = body_text r.body;
}
