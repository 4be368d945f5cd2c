-- ===== src/ApiKey.antt =====
-- internal/apikey/store.go: the table `api_keys` and its statements, and the row that
-- cmd/setup/apikey_insert.go writes.
pub mod Laws
mod Tests
use gateway_login.Base.{
  ℕ, Bool, true, false, not, ◌&&◌, Option, none, some, List, [], ◌∷◌, ◌++◌, map, Text, text_eq,
  codes, Result, ok, err, if◌then◌else◌, is_empty,
}
use gateway_login.Postgres.{Time}

-- A row of `api_keys`; the program's `Entry` has a description that is never NULL.
pub record KeyRow : Type 0 where
  pub id : Text
  pub key_hash : Text
  pub description : Option Text
  pub created_at : Time
  pub last_used_at : Option Time
  pub revoked : Bool

pub record Entry : Type 0 where
  pub id : Text
  pub key_hash : Text
  pub description : Text
  pub created_at : Time
  pub last_used_at : Option Time
  pub revoked : Bool

-- `ErrNotFound`, or another error with its text.
pub data KeyError : Type 0 where
  not_found : KeyError
  failed : Text → KeyError

-- err.Error()
unfoldable pub error_text : KeyError → Text
error_text not_found = codes "api key not found"
error_text (failed e) = e

has_id : Text → List KeyRow → Bool
has_id id [] = false
has_id id (r ∷ rs) = if text_eq r.id id then true else has_id id rs

-- The VALUES of an insertion, and the defaults of the other columns.
abbrev pub new_row : Time → Text → Text → Text → KeyRow
new_row now id key_hash description = record {
  id = id;
  key_hash = key_hash;
  description = some description;
  created_at = now;
  last_used_at = none;
  revoked = false;
}

-- `id` is the primary key.
unfoldable pub create : Option Text → Time → Entry → List KeyRow → Option Text × List KeyRow
unfolding has_id
create (some e) now k t = (some e, t)
create none now k t =
    if has_id k.id t
    then (some (codes "duplicate key value violates unique constraint"), t)
    else (none, t ++ new_row now k.id k.key_hash k.description ∷ [])

-- WHERE key_hash = $1 AND revoked = false LIMIT 1
unfoldable pub find_by_hash : Text → List KeyRow → Option KeyRow
find_by_hash hash [] = none
find_by_hash hash (r ∷ rs) =
    if text_eq r.key_hash hash && not r.revoked then some r else find_by_hash hash rs

-- COALESCE(description, '')
abbrev coalesce : Option Text → Text
coalesce none = []
coalesce (some t) = t

unfoldable pub scanned : KeyRow → Entry
scanned r = record {
  id = r.id;
  key_hash = r.key_hash;
  description = coalesce r.description;
  created_at = r.created_at;
  last_used_at = r.last_used_at;
  revoked = r.revoked;
}

unfoldable pub or_not_found : Option KeyRow → Result KeyError Entry
or_not_found none = err not_found
or_not_found (some r) = ok (scanned r)

unfoldable pub get_by_hash : Option Text → Text → List KeyRow → Result KeyError Entry
get_by_hash (some e) hash t = err (failed (codes "get api key: " ++ e))
get_by_hash none hash t = or_not_found (find_by_hash hash t)

-- UPDATE api_keys SET last_used_at = now() WHERE id = $1
unfoldable pub touched : Time → Text → KeyRow → KeyRow
touched now id r = if text_eq r.id id then record r { last_used_at = some now } else r

unfoldable pub mark_used : Option Text → Time → Text → List KeyRow → Option Text × List KeyRow
mark_used (some e) now id t = (some e, t)
mark_used none now id t = (none, map (touched now id) t)

-- `insertAPIKey` of cmd/setup: ON CONFLICT (id) DO UPDATE SET key_hash, description.
unfoldable pub upsert_key : Time → Entry → List KeyRow → List KeyRow
upsert_key now k [] = new_row now k.id k.key_hash k.description ∷ []
upsert_key now k (r ∷ rs) =
    let rest = upsert_key now k rs in
    if text_eq r.id k.id
    then record r { key_hash = k.key_hash; description = some k.description } ∷ rs
    else r ∷ rest

unfoldable pub insert_api_key :
    Option Text → Time → Option Entry → List KeyRow → Option Text × List KeyRow
insert_api_key fault now none t = (some (codes "nil api key entry"), t)
insert_api_key (some e) now (some k) t = (some (codes "upsert api key: " ++ e), t)
insert_api_key none now (some k) t = (none, upsert_key now k t)
