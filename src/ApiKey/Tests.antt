-- ===== src/ApiKey/Tests.antt =====
-- The keys on concrete tables.
use gateway_login.Base.{◌≡◌, refl, true, false, none, some, List, [], ◌∷◌, text_eq, codes, ok}
use gateway_login.ApiKey.{
  KeyRow, Entry, get_by_hash, scanned, mark_used, upsert_key, find_by_hash, or_not_found,
}
use gateway_login.ApiKey.Laws.{
  Answers, get_by_hash-Answers, find_by_id, find_by_id-upsert_key, replaced, authenticated,
  get_by_hash-mark_used,
}
use gateway_login.Samples.{key_row}

-- A revoked key, and one with the same hash that is not.
abbrev keys : List KeyRow
keys = key_row (codes "old") (codes "f00d") true ∷ key_row (codes "new") (codes "f00d") false ∷ []

abbrev entry : Entry
entry = record {
  id = codes "old";
  key_hash = codes "beef";
  description = codes "setup";
  created_at = 0;
  last_used_at = none;
  revoked = false;
}

get_by_hash-Answers_example : Answers (codes "f00d") keys (get_by_hash none (codes "f00d") keys)
get_by_hash-Answers_example = get_by_hash-Answers (codes "f00d") keys

found_new :
    get_by_hash none (codes "f00d") keys ≡ ok (scanned (key_row (codes "new") (codes "f00d") false))
unfolding get_by_hash find_by_hash or_not_found text_eq
found_new = refl

-- Setup writes the revoked key again.
find_by_id-upsert_key_test :
    find_by_id (codes "old") (upsert_key 9 entry keys)
    ≡ some (replaced 9 entry (some (key_row (codes "old") (codes "f00d") true)))
unfolding text_eq find_by_id
find_by_id-upsert_key_test = find_by_id-upsert_key 9 entry keys (codes "old")

get_by_hash-mark_used_test :
    authenticated (get_by_hash none (codes "f00d") (mark_used none 9 (codes "new") keys).1)
    ≡ authenticated (get_by_hash none (codes "f00d") keys)
get_by_hash-mark_used_test = get_by_hash-mark_used none 9 (codes "new") (codes "f00d") keys
