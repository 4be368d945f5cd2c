-- ===== src/Api/Middleware.antt =====
-- `APIKeyAuth` and `RateLimit` of internal/api/middleware.go, and the hash of a key.
use gateway_login.Base.{
  ℕ, ◌+◌, ◌-◌, ◌/◌, ◌%◌, Bool, true, false, Option, List, [], ◌∷◌, ◌++◌, Text, text_eq, codes,
  is_empty, Result, ok, err, if◌then◌else◌, ltb, ℤ, pos,
}
use gateway_login.ApiKey.{KeyRow, Entry, KeyError, error_text, get_by_hash}
use gateway_login.RateLimit.{Limiter, RedisFault, Verdict, allowed, failed, panic, allow}
use gateway_login.Api.View.{Response, plain, write_err}

-- What a request gives: its response, the limiter after it, and the ids of the keys whose use is
-- recorded by a goroutine of its own.
pub record Reply : Type 0 where
  pub response : Response
  pub limiter : Limiter
  pub marks : List Text

-- A handler: it is given the id of the API key in the request's context, "" if there is none.
abbrev pub Handler : Type 0
Handler = Text → Limiter → Reply

abbrev pub answer : Response → Limiter → Reply
answer r l = record { response = r; limiter = l; marks = [] }

-- hex.EncodeToString
abbrev hex_digit : ℕ → ℕ
hex_digit n = if ltb n 10 then b'0' + n else b'a' + n - 10

unfoldable pub hex : Text → Text
hex [] = []
hex (b ∷ s) = hex_digit (b / 16) ∷ hex_digit (b % 16) ∷ hex s

unfoldable pub is_not_found_err : KeyError → Bool
is_not_found_err e = text_eq (error_text e) (codes "api key not found")

-- The key was looked up.
unfoldable pub with_entry : Result KeyError Entry → Handler → Limiter → Reply
with_entry (err e) next l =
    if is_not_found_err e
    then answer (write_err 401 (codes "invalid_api_key")) l
    else answer (write_err 503 (codes "auth_backend_unavailable")) l
with_entry (ok entry) next l = let r = next entry.id l in record r { marks = entry.id ∷ r.marks }

-- `sha256` is the hash function, on bytes; `raw` the header X-API-Key.
unfoldable pub api_key_auth :
    (Text → Text) → Option Text → List KeyRow → Text → Handler → Limiter → Reply
api_key_auth sha256 fault keys raw next l =
    if is_empty raw
    then answer (write_err 401 (codes "missing_api_key")) l
    else with_entry (get_by_hash fault (hex (sha256 raw)) keys) next l

-- One minute, in nanoseconds.
abbrev pub minute : ℤ
minute = pos 60000000000

unfoldable pub with_verdict : Verdict → Handler → Handler
with_verdict (failed e) next id l = next id l
with_verdict (allowed false) next id l = answer (write_err 429 (codes "rate_limited")) l
with_verdict (allowed true) next id l = next id l
with_verdict panic next id l = answer (record { status = 500; body = plain [] }) l

unfoldable pub rate_limit : RedisFault → ℕ → ℕ → ℤ → Handler → Handler
rate_limit fault now server max_per_min next id l =
    let (v, l') = allow fault now server (codes "apikey:" ++ id) max_per_min minute l in
    if is_empty id then next id l else with_verdict v next id l'
