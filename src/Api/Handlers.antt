-- ===== src/Api/Handlers.antt =====
-- `Handlers.List` and `Handlers.Get` of internal/api/handlers.go.
pub mod Laws
use gateway_login.Base.{
  ℕ, ◌+◌, Bool, ◌||◌, Option, none, some, List, [], ◌∷◌, map, Text, text_eq, codes, is_empty,
  Result, ok, err, if◌then◌else◌, ℤ, pos, leb_ℤ, ltb_ℤ,
}
use gateway_login.Decimal.{atoi}
use gateway_login.Postgres.{Postgres}
use gateway_login.Karyawan.{Karyawan, Filter, RepoError, not_found, failed}
use gateway_login.Karyawan.Table.{Record, get_by_nik}
use gateway_login.Karyawan.Query.{Faults, list}
use gateway_login.Api.View.{KaryawanView, to_view, Response, list_body, view_body, write_err}

-- The parameters of a URL's query, in order.
abbrev pub Query : Type 0
Query = List (Text × Text)

-- q.Get(name): the first value, or "".
unfoldable pub get_param : Text → Query → Text
get_param name [] = []
get_param name ((n, v) ∷ q) = if text_eq n name then v else get_param name q

unfoldable pub clamp_limit : ℤ → ℤ
clamp_limit n = if leb_ℤ n (pos 0) || ltb_ℤ (pos 500) n then pos 50 else n

-- `sa != ""`, then `sa == "true" || sa == "1"`.
unfoldable pub status_param : Text → Option Bool
status_param sa =
    if is_empty sa then none else some (text_eq sa (codes "true") || text_eq sa (codes "1"))

unfoldable pub filter_of : Query → Filter
filter_of q = record {
  nik_hris = get_param (codes "nik_hris") q;
  nik_santos = get_param (codes "nik_santos") q;
  nama_karyawan = get_param (codes "nama_karyawan") q;
  departemen = get_param (codes "departemen") q;
  jabatan = get_param (codes "jabatan") q;
  lokasi = get_param (codes "lokasi") q;
  status_aktif = status_param (get_param (codes "status_aktif") q);
  limit = (atoi (get_param (codes "limit") q)).0;
  offset = (atoi (get_param (codes "offset") q)).0;
}

unfoldable pub list_response : Filter → Result RepoError (List Karyawan × ℕ) → Response
list_response f (err e) = write_err 500 (codes "query_error")
list_response f (ok (rows, total)) = record {
  status = 200;
  body = list_body (record {
    rows = map to_view rows;
    total = total;
    limit = clamp_limit f.limit;
    offset = f.offset;
  });
}

unfoldable pub handle_list : Postgres → Faults → List Record → Query → Response
handle_list pg faults t q = list_response (filter_of q) (list pg faults (filter_of q) t)

unfoldable pub get_response : Result RepoError Karyawan → Response
get_response (err not_found) = write_err 404 (codes "not_found")
get_response (err (failed e)) = write_err 500 (codes "query_error")
get_response (ok k) = record { status = 200; body = view_body (to_view k) }

unfoldable pub handle_get : Option Text → List Record → Text → Response
handle_get fault t nik =
    if is_empty nik
    then write_err 400 (codes "missing_nik")
    else get_response (get_by_nik fault nik t)
