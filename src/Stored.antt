-- ===== src/Stored.antt =====
-- internal/store/config.go: the configuration that setup keeps in a YAML file. The YAML library is
-- a parameter, and a file is its contents, if it exists.
use gateway_login.Base.{
  Option, none, some, List, [], ◌++◌, Text, codes, is_empty, Result, ok, err, ◌>>=◌, if◌then◌else◌,
  ℤ, pos,
}
use gateway_login.Crypto.{Cipher, Entropy, encrypt, decrypt}

pub record VpsConfig : Type 0 where
  pub host : Text
  pub port : ℤ
  pub database : Text
  pub username : Text
  pub password_encrypted : Text

pub record ApiKeyEntry : Type 0 where
  pub id : Text
  pub key_hash : Text
  pub description : Text

pub record SyncConfig : Type 0 where
  pub interval : Text
  pub batch_size : ℤ
  pub watermark_column : Text

-- `keys` is `API.Keys`.
pub record Config : Type 0 where
  pub vps : VpsConfig
  pub keys : List ApiKeyEntry
  pub sync : SyncConfig

-- &store.Config{}
abbrev pub empty : Config
empty = record {
  vps = record { host = []; port = pos 0; database = []; username = []; password_encrypted = [] };
  keys = [];
  sync = record { interval = []; batch_size = pos 0; watermark_column = [] };
}

pub record Yaml : Type 0 where
  pub marshal : Config → Text
  pub unmarshal : Text → Option Config

module _ (c : Cipher) where
  unfoldable pub set_encrypted_password : Entropy → Text → Text → VpsConfig → Result Text VpsConfig
  set_encrypted_password random plain key v =
      encrypt c random key plain >>= λ ct. ok (record v { password_encrypted = ct })

  unfoldable pub get_decrypted_password : Text → VpsConfig → Result Text Text
  get_decrypted_password key v =
      if is_empty v.password_encrypted
      then err (codes "no encrypted password set")
      else decrypt c key v.password_encrypted

module _ (y : Yaml) where
  parsed : Option Config → Result Text Config
  parsed none = err (codes "parse yaml: invalid")
  parsed (some cfg) = ok cfg

  -- `fault` is an error of the read other than that there is no file.
  unfoldable pub load : Option Text → Option Text → Result Text Config
  unfolding parsed
  load (some e) file = err (codes "read config: " ++ e)
  load none none = err (codes "read config: no such file or directory")
  load none (some text) = parsed (y.unmarshal text)

  -- The file is replaced at once, by the rename; `fault` is the error of any step before it.
  unfoldable pub save : Option Text → Config → Option Text → Option Text × Option Text
  save (some e) cfg file = (some e, file)
  save none cfg file = (none, some (y.marshal cfg))
