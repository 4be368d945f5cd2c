-- ===== src/Api/Wire/Handlers.antt =====
-- The responses of `List` and `Get` of internal/api/handlers.go, as bytes.
use gateway_login.Base.{
  ℕ, ◌^◌, ◌<◌, ◌≡◌, refl, Bool, true, false, Option, some, List, [], ◌∷◌, Text, Result, ok, err,
  is_empty, inl, inr, Bool-cases, arith, length, ℤ, pos, negsuc, IsInt64,
}
use gateway_login.Decimal.{Scan, value, syntax, range, signed, unsigned, scan, atoi}
use gateway_login.Postgres.{Postgres}
use gateway_login.Karyawan.{Karyawan, Filter, RepoError, not_found, failed}
use gateway_login.Karyawan.Table.{Record, get_by_nik}
use gateway_login.Karyawan.Query.{Faults, list}
use gateway_login.Karyawan.Query.Total.{list-total}
use gateway_login.Api.View.{write_err}
use gateway_login.Api.Handlers.{
  Query, filter_of, clamp_limit, list_response, handle_list, get_response, handle_get,
}
use gateway_login.Api.Wire.{write_json}
use gateway_login.Api.Wire.Client.{read_body}
use gateway_login.Api.Wire.Laws.{IsJson, cleaned_body, read_body-write_json}

signed-IsInt64 : (neg : Bool) (s : Scan) → IsInt64 (signed neg s).0
unfolding signed
signed-IsInt64 true syntax = omega arith
signed-IsInt64 false syntax = omega arith
signed-IsInt64 true range = omega arith
signed-IsInt64 false range = omega arith
signed-IsInt64 false (value n) = ground arith
signed-IsInt64 true (value n) = ground arith

unsigned-IsInt64 : (neg : Bool) (s : Text) → IsInt64 (unsigned neg s).0
unfolding unsigned
unsigned-IsInt64 neg [] = omega arith
unsigned-IsInt64 neg (c ∷ s) = signed-IsInt64 neg (scan (c ∷ s) 0)

-- What `Atoi` returns is an `int`.
atoi-IsInt64 : (s : Text) → IsInt64 (atoi s).0
unfolding atoi
atoi-IsInt64 [] = omega arith
atoi-IsInt64 (c ∷ s) =
    ground
      (arith, unsigned-IsInt64 true s, unsigned-IsInt64 false s, unsigned-IsInt64 false (c ∷ s))

clamp_limit-IsInt64 : (n : ℤ) → IsInt64 (clamp_limit n)
unfolding clamp_limit
clamp_limit-IsInt64 (pos n) = ground arith
clamp_limit-IsInt64 (negsuc n) = ground arith

list_response-IsJson :
    (f : Filter) (r : Result RepoError (List Karyawan × ℕ))
    → IsInt64 f.offset
    → ((ks : List Karyawan) (n : ℕ) → r ≡ ok (ks, n) → n < 2 ^ 63)
    → IsJson (list_response f r).body
unfolding list_response write_err
list_response-IsJson f (err e) offset total = tt
list_response-IsJson f (ok (ks, n)) offset total =
    (total ks n refl, clamp_limit-IsInt64 f.limit, offset)

handle_list-IsJson :
    (pg : Postgres) (faults : Faults) (t : List Record) (q : Query)
    → length t < 2 ^ 63
    → IsJson (handle_list pg faults t q).body
unfolding handle_list
handle_list-IsJson pg faults t q small =
    list_response-IsJson (filter_of q) (list pg faults (filter_of q) t)
      (unfold filter_of in atoi-IsInt64 _)
      (λ ks n h. omega (arith, small, list-total pg t faults (filter_of q) ks n h))

get_response-IsJson : (r : Result RepoError Karyawan) → IsJson (get_response r).body
unfolding get_response write_err
get_response-IsJson (err not_found) = tt
get_response-IsJson (err (failed e)) = tt
get_response-IsJson (ok k) = tt

handle_get-IsJson :
    (fault : Option Text) (t : List Record) (nik : Text) → IsJson (handle_get fault t nik).body
unfolding handle_get write_err
handle_get-IsJson fault t nik = elim (Bool-cases (is_empty nik)) [
  | inl empty ↦ rw empty tt
  | inr given ↦ rw given (get_response-IsJson (get_by_nik fault nik t))
]

-- Whatever the query, the filter and the faults, a client that reads the fields by their names
-- finds in the bytes of a listing the response of the handler, an error or a page, with U+FFFD for
-- each byte of its texts that is in no character of UTF-8, if the table has fewer than 2 ^ 63
-- rows; and likewise in the bytes of GET for one row.
pub read_body-handlers :
    (pg : Postgres) (faults : Faults) (fault : Option Text) (t : List Record) (q : Query)
    (nik : Text)
    → length t < 2 ^ 63
    → (read_body (write_json (handle_list pg faults t q)).bytes
        ≡ some (cleaned_body (handle_list pg faults t q).body))
      × (read_body (write_json (handle_get fault t nik)).bytes
          ≡ some (cleaned_body (handle_get fault t nik).body))
read_body-handlers pg faults fault t q nik small = (
  (read_body-write_json (handle_list pg faults t q) (handle_list-IsJson pg faults t q small)).0,
  (read_body-write_json (handle_get fault t nik) (handle_get-IsJson fault t nik)).0,
)
