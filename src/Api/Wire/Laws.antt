-- ===== src/Api/Wire/Laws.antt =====
-- The bytes that `writeJSON` of internal/api/handlers.go writes, against a client that reads them.
use gateway_login.Base.{
  ◌^◌, ◌<◌, ◌≡◌, refl, ap, ◌∙◌, Option, none, some, List, [], ◌∷◌, map, Text, text_eq, codes,
  IsInt64, arith,
}
use mathlib.Core.Option
use gateway_login.Api.View.{
  KaryawanView, ListResponse, Body, error_code, list_body, view_body, plain, Response,
}
use gateway_login.Api.Json.Quotes.{cleaned}
use gateway_login.Api.Json.RoundTrip.{
  cleaned_json, cleaned_elements, Fits, FitElements, parse-encode,
}
use gateway_login.Api.Wire.{view_json, views_json, list_json, error_json, body_text, write_json}
use gateway_login.Api.Wire.Client.{
  get_member, to_view, to_views, to_list, to_body, read_body, ◌>>=◌,
}

-- The body with U+FFFD for each byte of its texts that is in no character.
unfoldable pub cleaned_view : KaryawanView → KaryawanView
cleaned_view v = record {
  nik_hris = cleaned 0 v.nik_hris;
  nik_santos = cleaned 0 v.nik_santos;
  nama_karyawan = cleaned 0 v.nama_karyawan;
  nama_departemen = cleaned 0 v.nama_departemen;
  nama_jabatan = cleaned 0 v.nama_jabatan;
  tgl_bergabung = Option.map (cleaned 0) v.tgl_bergabung;
  tgl_keluar = Option.map (cleaned 0) v.tgl_keluar;
  lokasi = cleaned 0 v.lokasi;
  gender = cleaned 0 v.gender;
}

unfoldable pub cleaned_body : Body → Body
unfolding cleaned_view
cleaned_body (error_code code) = error_code (cleaned 0 code)
cleaned_body (list_body r) = list_body (record r { rows = map cleaned_view r.rows })
cleaned_body (view_body v) = view_body (cleaned_view v)
cleaned_body (plain t) = plain t

-- The body is written as JSON, with 64-bit integers.
abbrev pub IsJson : Body → Type 0
IsJson (error_code code) = Unit
IsJson (list_body r) = (r.total < 2 ^ 63) × IsInt64 r.limit × IsInt64 r.offset
IsJson (view_body v) = Unit
IsJson (plain t) = ⊥

to_view-view_json :
    (v : KaryawanView) → to_view (cleaned_json (view_json v)) ≡ some (cleaned_view v)
unfolding to_view view_json cleaned_json cleaned text_eq get_member cleaned_view
to_view-view_json v = dates v.tgl_bergabung v.tgl_keluar
  where
    dates :
        (a b : Option Text)
        → to_view (cleaned_json (view_json (record v { tgl_bergabung = a; tgl_keluar = b })))
          ≡ some (cleaned_view (record v { tgl_bergabung = a; tgl_keluar = b }))
    dates none none = refl
    dates none (some b) = refl
    dates (some a) none = refl
    dates (some a) (some b) = refl

to_views-views_json :
    (vs : List KaryawanView)
    → to_views (cleaned_elements (views_json vs)) ≡ some (map cleaned_view vs)
unfolding to_views views_json cleaned_elements
to_views-views_json [] = refl
to_views-views_json (v ∷ vs) = rw (to_view-view_json v, ◌>>=◌, to_views-views_json vs)

Fits-view_json : (v : KaryawanView) → Fits (view_json v)
unfolding FitElements view_json
Fits-view_json v = dates v.tgl_bergabung v.tgl_keluar
  where
    dates : (a b : Option Text) → Fits (view_json (record v { tgl_bergabung = a; tgl_keluar = b }))
    dates none none = omega arith
    dates none (some b) = omega arith
    dates (some a) none = omega arith
    dates (some a) (some b) = omega arith

Fits-views_json : (vs : List KaryawanView) → FitElements (views_json vs)
unfolding views_json FitElements
Fits-views_json [] = tt
Fits-views_json (v ∷ vs) = (Fits-view_json v, Fits-views_json vs)

to_list-list_json :
    (r : ListResponse) → to_body (cleaned_json (list_json r)) ≡ some (cleaned_body (list_body r))
unfolding to_body to_list list_json cleaned_json cleaned text_eq get_member cleaned_body
to_list-list_json r = rw (to_views-views_json r.rows, ◌>>=◌)

to_body-view_json :
    (v : KaryawanView)
    → to_body (cleaned_json (view_json v))
      ≡ Option.map (λ w. view_body w) (to_view (cleaned_json (view_json v)))
unfolding to_body view_json cleaned_json cleaned text_eq get_member
to_body-view_json v = refl

read_body-body_text : (b : Body) → IsJson b → read_body (body_text b) ≡ some (cleaned_body b)
unfolding read_body body_text
read_body-body_text (error_code code) h =
    ap (λ j. j >>= to_body) (parse-encode (error_json code) (unfold Fits error_json in omega arith))
    ∙ (unfold to_body error_json cleaned_json cleaned text_eq get_member cleaned_body in refl)
read_body-body_text (list_body r) (total, limit, offset) =
    ap (λ j. j >>= to_body)
      (parse-encode (list_json r)
        (unfold Fits list_json in (Fits-views_json r.rows, (total, (limit, (offset, tt))))))
    ∙ to_list-list_json r
read_body-body_text (view_body v) h =
    ap (λ j. j >>= to_body) (parse-encode (view_json v) (Fits-view_json v))
    ∙ to_body-view_json v
    ∙ ap (Option.map (λ w. view_body w)) (to_view-view_json v)
    ∙ (unfold cleaned_body in refl)
read_body-body_text (plain t) h = elim h [ ]

-- What is written for a body that is not plain, with integers of 64 bits, goes out as JSON with
-- the status, and a client that reads the fields by their names finds the body again, with U+FFFD
-- for each byte of its texts that is in no character of UTF-8.
pub read_body-write_json :
    (r : Response)
    → IsJson r.body
    → (read_body (write_json r).bytes ≡ some (cleaned_body r.body))
      × ((write_json r).status ≡ r.status)
      × ((write_json r).content_type ≡ some (codes "application/json"))
unfolding write_json
read_body-write_json r h = (read_body-body_text r.body h, refl, typed r.body h)
  where
    typed :
        (b : Body)
        → IsJson b
        → (write_json (record { status = r.status; body = b })).content_type
          ≡ some (codes "application/json")
    typed (error_code code) h = refl
    typed (list_body l) h = refl
    typed (view_body v) h = refl
    typed (plain t) h = elim h [ ]
