-- ===== src/Api/Wire/Client.antt =====
-- A client of the API: what it makes of a body, by the names of the fields that
-- internal/api/handlers.go documents in its tags, in whatever order they come.
use mathlib.Core.Option
use gateway_login.Base.{
  ℕ, Option, none, some, List, [], ◌∷◌, Text, text_eq, codes, if◌then◌else◌, ℤ, pos,
}
use gateway_login.Api.View.{KaryawanView, ListResponse, Body, error_code, list_body, view_body}
use gateway_login.Api.Json.{
  Json, null, number, string, array, object, Elements, no_elements, element, Members, no_members,
  member,
}
use gateway_login.Api.Json.Reader.{parse}

infixl 5 ◌>>=◌
abbrev pub ◌>>=◌ : {A B : Type 0} → Option A → (A → Option B) → Option B
none >>= f = none
some x >>= f = f x

unfoldable pub get_member : Text → Members → Option Json
get_member name no_members = none
get_member name (member k v fs) = if text_eq k name then some v else get_member name fs

abbrev pub to_text : Json → Option Text
to_text (string s) = some s
to_text _ = none

abbrev pub to_nullable : Json → Option (Option Text)
to_nullable (string s) = some (some s)
to_nullable null = some none
to_nullable _ = none

abbrev pub to_int : Json → Option ℤ
to_int (number n) = some n
to_int _ = none

abbrev pub to_count : Json → Option ℕ
to_count (number (pos n)) = some n
to_count _ = none

abbrev text_field : Text → Members → Option Text
text_field name fs = get_member name fs >>= to_text

abbrev nullable_field : Text → Members → Option (Option Text)
nullable_field name fs = get_member name fs >>= to_nullable

unfoldable pub to_view : Json → Option KaryawanView
unfolding get_member
to_view (object fs) = do
  nik_hris ← text_field (codes "nik_hris") fs
  nik_santos ← text_field (codes "nik_santos") fs
  nama_karyawan ← text_field (codes "nama_karyawan") fs
  nama_departemen ← text_field (codes "nama_departemen") fs
  nama_jabatan ← text_field (codes "nama_jabatan") fs
  tgl_bergabung ← nullable_field (codes "tgl_bergabung") fs
  tgl_keluar ← nullable_field (codes "tgl_keluar") fs
  lokasi ← text_field (codes "lokasi") fs
  gender ← text_field (codes "gender") fs
  some (record {
    nik_hris = nik_hris;
    nik_santos = nik_santos;
    nama_karyawan = nama_karyawan;
    nama_departemen = nama_departemen;
    nama_jabatan = nama_jabatan;
    tgl_bergabung = tgl_bergabung;
    tgl_keluar = tgl_keluar;
    lokasi = lokasi;
    gender = gender;
  })
to_view _ = none

unfoldable pub to_views : Elements → Option (List KaryawanView)
to_views no_elements = some []
to_views (element x xs) = do v ← to_view x; vs ← to_views xs; some (v ∷ vs)

abbrev to_elements : Json → Option (List KaryawanView)
to_elements (array xs) = to_views xs
to_elements _ = none

unfoldable pub to_list : Members → Option ListResponse
unfolding get_member
to_list fs = do
  rows ← get_member (codes "data") fs >>= to_elements
  total ← get_member (codes "total") fs >>= to_count
  limit ← get_member (codes "limit") fs >>= to_int
  offset ← get_member (codes "offset") fs >>= to_int
  some (record { rows = rows; total = total; limit = limit; offset = offset })

-- An object with an error, a page, or else one employee.
abbrev by_kind : Members → Option Json → Option Json → Option Body
by_kind fs (some code) _ = Option.map (λ c. error_code c) (to_text code)
by_kind fs none (some rows) = Option.map (λ r. list_body r) (to_list fs)
by_kind fs none none = Option.map (λ v. view_body v) (to_view (object fs))

unfoldable pub to_body : Json → Option Body
unfolding get_member
to_body (object fs) = by_kind fs (get_member (codes "error") fs) (get_member (codes "data") fs)
to_body _ = none

unfoldable pub read_body : Text → Option Body
read_body t = parse t >>= to_body
