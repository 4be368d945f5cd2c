-- ===== src/Setup/KeyTests.antt =====
-- The key of setup written to concrete tables.
use mathlib.Core.List.{cons-ne-nil}
use gateway_login.Base.{
  ◌≡◌, ◌≢◌, refl, false, some, none, [], ◌∷◌, List, text_eq, text_eq_iff, codes, ok,
}
use gateway_login.ApiKey.{KeyRow, Entry, get_by_hash, insert_api_key}
use gateway_login.ApiKey.Laws.{find_by_id}
use gateway_login.Stored
use gateway_login.Stored.{ApiKeyEntry, Config}
use gateway_login.Setup.{Libraries, hash_api_key}
use gateway_login.Setup.KeyEntry.{api_key_entry, get_by_hash-insert_api_key, insert_api_key_first}
use gateway_login.Samples.{key_row}

-- Nothing is encrypted, and a hash is the text itself.
abbrev libraries : Libraries
libraries = record {
  cipher = record {
    nonce_size = 1;
    seal = λ key nonce plain. plain;
    open_sealed = λ key nonce sealed. some sealed;
    encode = λ s. s;
    decode = λ s. some s;
  };
  yaml = record { marshal = λ c. []; unmarshal = λ s. none };
  sha256 = λ s. s;
  raw_url_encode = λ s. s;
}

abbrev operator : ApiKeyEntry
operator = record { id = codes "ops"; key_hash = codes "f00d"; description = [] }

abbrev config : Config
config = record Stored.empty { keys = operator ∷ [] }

abbrev rows : List KeyRow
rows = key_row (codes "ops") (codes "f00d") false ∷ []

get_by_hash-insert_api_key_example :
    (e : Entry) × (get_by_hash none
        (hash_api_key libraries (codes "k"))
        (insert_api_key none 9
          (some (api_key_entry libraries none (codes "k") (codes "default")))
          []).1
      ≡ ok e)
unfolding find_by_id
get_by_hash-insert_api_key_example =
    get_by_hash-insert_api_key libraries 9 none (codes "k") (codes "default") []
      (λ r e. absurd (cc e))

apart : operator.id ≢ codes "default"
unfolding text_eq
apart e = absurd (cc ((text_eq_iff operator.id (codes "default")).1 e))

insert_api_key_first_example :
    ((r : KeyRow) × (find_by_id
          (codes "ops")
          (insert_api_key none 9
            (some (api_key_entry libraries (some config) (codes "k") (codes "default")))
            rows).1
        ≡ some r)
      × (r.key_hash ≡ hash_api_key libraries (codes "k")))
    × (find_by_id
          (codes "default")
          (insert_api_key none 9
            (some (api_key_entry libraries (some config) (codes "k") (codes "default")))
            rows).1
        ≡ find_by_id (codes "default") rows)
insert_api_key_first_example =
    insert_api_key_first libraries 9 config (codes "k") (codes "default") rows operator [] refl
      (cons-ne-nil b'o' (codes "ps")) apart
