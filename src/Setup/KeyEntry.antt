-- ===== src/Setup/KeyEntry.antt =====
-- `apiKeyEntry` and `insertAPIKey` of cmd/setup/apikey_insert.go: the row that setup writes for the
-- key it shows, and whether that key authenticates.
use mathlib.Core.Path.{subst}
use mathlib.Core.List.{Memᴰ}
use gateway_login.Base.{
  ◌≡◌, ◌≢◌, refl, sym, false, Option, none, some, List, [], ◌∷◌, Text, text_eq, text_eq_iff,
  text_eq_refl, text_or, codes, Result, ok, err, Bool-cases, inl, inr,
}
use gateway_login.Postgres.{Time}
use gateway_login.ApiKey
use gateway_login.ApiKey.{KeyRow, Entry, KeyError, get_by_hash, upsert_key, insert_api_key}
use gateway_login.ApiKey.Laws.{
  Answers, get_by_hash-Answers, find_by_id, replaced, find_by_id-upsert_key,
}
use gateway_login.Stored.{ApiKeyEntry, Config}
use gateway_login.Setup.{Libraries, hash_api_key}

-- The id and the description of the first key of the configuration, if there is one.
unfoldable pub id_and_description : Option Config → Text → Text × Text
id_and_description none fallback = (fallback, codes "generated by setup")
id_and_description (some cfg) fallback = elim cfg.keys [
  | [] ↦ (fallback, codes "generated by setup")
  | k ∷ _ ↦ (text_or fallback k.id, text_or (codes "generated by setup") k.description)
]

-- The times and the revocation are the zero values.
unfoldable pub api_key_entry : Libraries → Option Config → Text → Text → Entry
api_key_entry lib cfg plain fallback = record {
  id = (id_and_description cfg fallback).0;
  key_hash = hash_api_key lib plain;
  description = (id_and_description cfg fallback).1;
  created_at = 0;
  last_used_at = none;
  revoked = false;
}

pub find_by_id-mem :
    (id : Text) (t : List KeyRow) (r : KeyRow) → find_by_id id t ≡ some r → Memᴰ r t
unfolding find_by_id
find_by_id-mem id [] r h = absurd (cc)
find_by_id-mem id (x ∷ xs) r h = elim (Bool-cases (text_eq x.id id)) [
  | inl same ↦ let e : x ≡ r = cc (rw same at h) in Memᴰ.head (sym e)
  | inr other ↦ Memᴰ.tail (find_by_id-mem id xs r (rw (other, find_by_id) at h))
]

module _ (lib : Libraries) (now : Time) (cfg : Option Config) (plain fallback : Text)
    (t : List KeyRow) where
  abbrev entry : Entry
  entry = api_key_entry lib cfg plain fallback

  abbrev keys : List KeyRow
  keys = (insert_api_key none now (some entry) t).1

  written_row : find_by_id entry.id keys ≡ some (replaced now entry (find_by_id entry.id t))
  unfolding insert_api_key
  written_row = rw (find_by_id-upsert_key now entry t entry.id, text_eq_refl entry.id)

  hash-replaced : (o : Option KeyRow) → (replaced now entry o).key_hash ≡ hash_api_key lib plain
  unfolding api_key_entry
  hash-replaced none = refl
  hash-replaced (some r) = refl

  unrevoked :
      (o : Option KeyRow)
      → ((r : KeyRow) → o ≡ some r → r.revoked ≡ false)
      → (replaced now entry o).revoked ≡ false
  unrevoked none live = refl
  unrevoked (some r) live = live r refl

  -- After its row is written, the key that setup shows authenticates, unless the row of that id was
  -- there and revoked.
  pub get_by_hash-insert_api_key :
      ((r : KeyRow)
        → find_by_id (api_key_entry lib cfg plain fallback).id t ≡ some r
        → r.revoked ≡ false)
      → (e : Entry) × (get_by_hash none
            (hash_api_key lib plain)
            (insert_api_key none now (some (api_key_entry lib cfg plain fallback)) t).1
          ≡ ok e)
  get_by_hash-insert_api_key live =
      go (get_by_hash none (hash_api_key lib plain) keys) refl
        (get_by_hash-Answers (hash_api_key lib plain) keys)
    where
      go :
          (a : Result KeyError Entry)
          → get_by_hash none (hash_api_key lib plain) keys ≡ a
          → Answers (hash_api_key lib plain) keys a
          → (e : Entry) × (get_by_hash none (hash_api_key lib plain) keys ≡ ok e)
      go (ok e) same says = (e, same)
      go (err ApiKey.not_found) same says =
          let old = find_by_id entry.id t in
          let revoked = says _ (find_by_id-mem entry.id keys _ written_row) (hash-replaced old) in
          absurd (cc (revoked, unrevoked old live))
      go (err (ApiKey.failed e)) same says = elim says [ ]

text_or-some : (d v : Text) → v ≢ [] → text_or d v ≡ v
text_or-some d [] h = absurd (h refl)
text_or-some d (c ∷ s) h = refl

id-api_key_entry :
    (lib : Libraries) (cfg : Config) (plain fallback : Text) (k : ApiKeyEntry)
    (ks : List ApiKeyEntry)
    → cfg.keys ≡ k ∷ ks
    → k.id ≢ []
    → (api_key_entry lib (some cfg) plain fallback).id ≡ k.id
unfolding api_key_entry id_and_description
id-api_key_entry lib cfg plain fallback k ks first given =
    simp first (text_or-some fallback k.id given)

text_eq-apart : (s t : Text) → s ≢ t → text_eq s t ≡ false
text_eq-apart s t h = elim (Bool-cases (text_eq s t)) [
  | inl same ↦ absurd (h ((text_eq_iff s t).0 same))
  | inr other ↦ other
]

-- The row is that of the first key of the configuration: if that is an operator's key, with an id
-- that is neither empty nor "default", setup replaces the operator's hash by that of the key it
-- shows, and leaves the row "default" as it was.
pub insert_api_key_first :
    (lib : Libraries) (now : Time) (cfg : Config) (plain fallback : Text) (t : List KeyRow)
    (k : ApiKeyEntry) (ks : List ApiKeyEntry)
    → cfg.keys ≡ k ∷ ks
    → k.id ≢ []
    → k.id ≢ codes "default"
    → ((r : KeyRow) × (find_by_id k.id
            (insert_api_key none now (some (api_key_entry lib (some cfg) plain fallback)) t).1
          ≡ some r)
        × (r.key_hash ≡ hash_api_key lib plain))
      × (find_by_id
            (codes "default")
            (insert_api_key none now (some (api_key_entry lib (some cfg) plain fallback)) t).1
          ≡ find_by_id (codes "default") t)
unfolding insert_api_key
insert_api_key_first lib now cfg plain fallback t k ks first given other =
    let e = api_key_entry lib (some cfg) plain fallback in
    let own = id-api_key_entry lib cfg plain fallback k ks first given in
    let old = find_by_id e.id t in
    let apart : text_eq e.id (codes "default") ≡ false =
      rw own (text_eq-apart k.id (codes "default") other) in
    (
      (
        replaced now e old,
        subst (λ i. find_by_id i (upsert_key now e t) ≡ some (replaced now e old)) own
            (unfold insert_api_key in written_row lib now (some cfg) plain fallback t),
        hash-replaced lib now (some cfg) plain fallback t old,
      ),
      rw (find_by_id-upsert_key now e t (codes "default"), apart) refl,
    )
