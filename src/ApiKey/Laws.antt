-- ===== src/ApiKey/Laws.antt =====
-- internal/apikey/store.go: which key a hash finds, and what the other statements keep of it.
use gateway_login.Base.{
  ◌≡◌, refl, sym, ap, true, false, not, ◌&&◌, Option, none, some, List, [], ◌∷◌, map, Text, text_eq,
  text_eq_iff, Result, ok, err, arith, ◌⊎◌, inl, inr, Bool-cases, if◌then◌else◌,
}
use mathlib.Core.List.{Memᴰ}
use mathlib.Core.List.Memᴰ
use gateway_login.Postgres.{Time}
use gateway_login.ApiKey.{
  KeyRow, Entry, KeyError, not_found, failed, new_row, find_by_hash, scanned, or_not_found,
  get_by_hash, touched, mark_used, upsert_key,
}

find_by_hash-some :
    (hash : Text) (t : List KeyRow) {r : KeyRow}
    → find_by_hash hash t ≡ some r
    → Memᴰ r t × (r.key_hash ≡ hash) × (r.revoked ≡ false)
unfolding find_by_hash
find_by_hash-some hash [] h = absurd (cc)
find_by_hash-some hash (x ∷ xs) {r} h =
    elim (Bool-cases (text_eq x.key_hash hash && not x.revoked)) [
      | inl hit ↦
          let e : x ≡ r = cc (rw (hit, find_by_hash) at h) in
          (
            Memᴰ.head (sym e),
            rw (← e) ((text_eq_iff x.key_hash hash).0 (ground (arith, hit))),
            rw (← e) (ground (arith, hit)),
          )
      | inr miss ↦
          let (m, same, live) = find_by_hash-some hash xs {r = r} (rw (miss, find_by_hash) at h) in
          (Memᴰ.tail m, same, live)
    ]

find_by_hash-none :
    (hash : Text) (t : List KeyRow) (r : KeyRow)
    → find_by_hash hash t ≡ none
    → Memᴰ r t
    → r.key_hash ≡ hash
    → r.revoked ≡ true
unfolding find_by_hash
find_by_hash-none hash [] r h m e = absurd (Memᴰ.not-nil m)
find_by_hash-none hash (x ∷ xs) r h m e =
    elim (Bool-cases (text_eq x.key_hash hash && not x.revoked)) [
      | inl hit ↦ absurd (cc (rw (hit, find_by_hash) at h))
      | inr miss ↦
          pick miss (Memᴰ.cases_cons m) (find_by_hash-none hash xs r (rw (miss, find_by_hash) at h))
    ]
  where
    pick :
        (text_eq x.key_hash hash && not x.revoked) ≡ false
        → (r ≡ x) ⊎ Memᴰ r xs
        → (Memᴰ r xs → r.key_hash ≡ hash → r.revoked ≡ true)
        → r.revoked ≡ true
    pick miss (inl same) ih = ground (
      arith,
      ap (λ (y : KeyRow). y.key_hash) same,
      ap (λ (y : KeyRow). y.revoked) same,
      (text_eq_iff x.key_hash hash).1,
      e,
      miss,
    )
    pick miss (inr l) ih = ih l e

-- What an answer of `GetByHash` says of the table.
abbrev pub Answers : Text → List KeyRow → Result KeyError Entry → Type 0
Answers hash t (ok e) =
    (r : KeyRow) × Memᴰ r t × (r.key_hash ≡ hash) × (r.revoked ≡ false) × (e ≡ scanned r)
Answers hash t (err not_found) = (r : KeyRow) → Memᴰ r t → r.key_hash ≡ hash → r.revoked ≡ true
Answers hash t (err (failed _)) = ⊥

-- If the query does not fail, an entry is that of a row with the hash that is not revoked, and
-- 'not found' is answered only if every row with the hash is revoked.
pub get_by_hash-Answers : (hash : Text) (t : List KeyRow) → Answers hash t (get_by_hash none hash t)
unfolding get_by_hash
get_by_hash-Answers hash t = go (find_by_hash hash t) refl
  where
    go : (o : Option KeyRow) → find_by_hash hash t ≡ o → Answers hash t (or_not_found o)
    go none e = unfold or_not_found in λ r m same. find_by_hash-none hash t r e m same
    go (some r) e =
        let (m, same, live) = find_by_hash-some hash t {r = r} e in
        unfold or_not_found in (r, m, same, live, refl)

-- The row with an id.
unfoldable pub find_by_id : Text → List KeyRow → Option KeyRow
find_by_id id [] = none
find_by_id id (r ∷ rs) = if text_eq r.id id then some r else find_by_id id rs

-- What setup leaves under the id of its entry: the new hash and description in the old row, its
-- revocation and its times kept, or a new row that is not revoked.
abbrev pub replaced : Time → Entry → Option KeyRow → KeyRow
replaced now k none = new_row now k.id k.key_hash k.description
replaced now k (some r) = record r { key_hash = k.key_hash; description = some k.description }

-- Setup replaces the hash and the description under its own id, never the revocation, and leaves
-- the rows of all other ids.
pub find_by_id-upsert_key :
    (now : Time) (k : Entry) (t : List KeyRow) (id : Text)
    → find_by_id id (upsert_key now k t)
      ≡ (if text_eq k.id id then some (replaced now k (find_by_id id t)) else find_by_id id t)
unfolding find_by_id upsert_key
find_by_id-upsert_key now k [] id = refl
find_by_id-upsert_key now k (r ∷ rs) id = ground (
  arith,
  find_by_id-upsert_key now k rs id,
  text_eq_iff r.id k.id,
  text_eq_iff k.id id,
  text_eq_iff r.id id,
)

-- The id that a lookup authenticates, if it does.
abbrev pub authenticated : Result KeyError Entry → Option Text
authenticated (ok e) = some e.id
authenticated (err e) = none

find_by_hash-touched :
    (now : Time) (id hash : Text) (t : List KeyRow)
    → authenticated (or_not_found (find_by_hash hash (map (touched now id) t)))
      ≡ authenticated (or_not_found (find_by_hash hash t))
unfolding find_by_hash or_not_found scanned touched
find_by_hash-touched now id hash [] = refl
find_by_hash-touched now id hash (r ∷ rs) =
    let ih = find_by_hash-touched now id hash rs in
    elim (Bool-cases (text_eq r.key_hash hash && not r.revoked)) [
      | inl hit ↦ ground (arith, hit)
      | inr miss ↦ ground (arith, miss, ih)
    ]

-- Recording a use changes no authentication, whatever the id and the hash.
pub get_by_hash-mark_used :
    (fault : Option Text) (now : Time) (id hash : Text) (t : List KeyRow)
    → authenticated (get_by_hash none hash (mark_used fault now id t).1)
      ≡ authenticated (get_by_hash none hash t)
unfolding get_by_hash mark_used
get_by_hash-mark_used (some e) now id hash t = refl
get_by_hash-mark_used none now id hash t = find_by_hash-touched now id hash t
