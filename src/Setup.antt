-- ===== src/Setup.antt =====
-- internal/setup/setup.go: the file of the master key, the answers from the environment, and
-- `RunPromptFlow`.
pub mod Dotenv
pub mod Secrets
pub mod Flow
pub mod Failure
pub mod Environment
pub mod KeyEntry
pub mod Terminal
pub mod Samples
mod Tests
mod KeyTests
use gateway_login.Base.{
  ℕ, ◌+◌, ◌≡◌, Bool, true, false, not, ◌&&◌, Option, none, some, List, [], ◌∷◌, ◌++◌, Text, text_eq,
  codes, is_empty, Result, ok, err, map_err, ◌>>=◌, if◌then◌else◌, length, ◌==◌, ℤ, pos, negsuc,
}
use gateway_login.Decimal.{itoa, atoi}
use gateway_login.Crypto.{Entropy, new_random_key, Cipher, base64_to_key, key_to_base64}
use gateway_login.Stored
use gateway_login.Stored.{
  VpsConfig, ApiKeyEntry, SyncConfig, Config, Yaml, set_encrypted_password, load, save,
}
use gateway_login.Api.Middleware.{hex}

-- `current` is the line so far; the last line may lack its newline.
unfoldable pub split_from : Text → Text → List Text
split_from current [] = if is_empty current then [] else current ∷ []
split_from current (c ∷ s) =
    let next = split_from [] s in
    let longer = split_from (current ++ c ∷ []) s in if c == b'\n' then current ∷ next else longer

abbrev pub split_lines : Text → List Text
split_lines s = split_from [] s

-- line[:len(prefix)] == prefix, and what follows it.
unfoldable pub strip_prefix : Text → Text → Option Text
strip_prefix [] line = some line
strip_prefix (p ∷ ps) [] = none
strip_prefix (p ∷ ps) (c ∷ line) = let rest = strip_prefix ps line in if p == c then rest else none

abbrev pub key_prefix : Text
key_prefix = codes "GATEWAY_MASTER_KEY="

-- A line that is longer than its prefix ends the search.
value_or : Option Text → Text → Text
value_or (some (c ∷ v)) rest = c ∷ v
value_or (some []) rest = rest
value_or none rest = rest

unfoldable pub find_master_key : List Text → Text
unfolding value_or
find_master_key [] = []
find_master_key (line ∷ lines) = value_or (strip_prefix key_prefix line) (find_master_key lines)

-- `fault` is an error of the read other than that there is no file.
unfoldable pub read_master_key : Option Text → Option Text → Result Text Text
read_master_key (some e) file = err e
read_master_key none none = ok []
read_master_key none (some text) = ok (find_master_key (split_lines text))

-- What `writeDotenv` writes.
abbrev pub dotenv_text : Text → Text
dotenv_text key = codes "GATEWAY_MASTER_KEY=" ++ key ++ b'\n' ∷ []

unfoldable pub write_dotenv : Option Text → Text → Option Text → Option Text × Option Text
write_dotenv (some e) key file = (some e, file)
write_dotenv none key file = (none, some (dotenv_text key))

pub record Files : Type 0 where
  pub dotenv : Option Text
  pub config : Option Text

pub record Libraries : Type 0 where
  pub cipher : Cipher
  pub yaml : Yaml
  pub sha256 : Text → Text
  pub raw_url_encode : Text → Text

-- What a run meets: the answers, the connection, the random bytes, and the errors of the files.
pub record Meets : Type 0 where
  pub answers : Result Text (List Text)
  pub connect : Option Text
  pub api_random : Entropy
  pub read_dotenv : Option Text
  pub master_random : Entropy
  pub read_config : Option Text
  pub nonce_random : Entropy
  pub write_dotenv : Option Text
  pub save_config : Option Text

pub record Answers : Type 0 where
  pub host : Text
  pub port : Text
  pub database : Text
  pub username : Text
  pub password : Text
  pub api_key : Text

-- len(answers) != len(questions)
unfoldable pub six_answers : List Text → Result Text Answers
unfolding itoa
six_answers (h ∷ p ∷ d ∷ u ∷ w ∷ k ∷ []) =
    ok (record { host = h; port = p; database = d; username = u; password = w; api_key = k })
six_answers other = err (codes "expected 6 answers, got " ++ itoa (pos (length other)))

-- The three results of a run: the configuration, the API key, and the master key.
pub record Written : Type 0 where
  pub config : Config
  pub api_key : Text
  pub master : Text

abbrev is_zero : ℤ → Bool
is_zero (pos n) = n == 0
is_zero (negsuc n) = false

port_number : Text → ℤ × Bool → Result Text ℤ
port_number s (n, true) = ok n
port_number s (n, false) = err (codes "invalid port " ++ s)

connected : Option Text → Result Text Bool
connected none = ok true
connected (some e) = err (codes "vps connection: " ++ e)

module _ (lib : Libraries) where
  abbrev pub hash_api_key : Text → Text
  hash_api_key plain = hex (lib.sha256 plain)

  unfoldable pub generate_api_key : Entropy → Result Text Text
  generate_api_key random = map_err (λ e. codes "rand: " ++ e) (random 32) >>= λ b.
      ok (codes "ssogw_" ++ lib.raw_url_encode b)

  unfoldable pub api_key_or_new : Text → Entropy → Result Text Text
  api_key_or_new plain random =
      if is_empty plain
      then map_err (λ e. codes "generate api key: " ++ e) (generate_api_key random)
      else ok plain

  -- The master key as text and as bytes: the one that is given, the one in the file, or a new one.
  unfoldable pub given_or_read : Text → Result Text Text → Text
  given_or_read given (ok v) = if is_empty given then v else given
  given_or_read given (err e) = given

  unfoldable pub master_key : Text → Entropy → Result Text (Text × Text)
  master_key known random =
      if is_empty known
      then (map_err (λ e. codes "generate master key: " ++ e) (new_random_key random) >>= λ key.
          ok (key_to_base64 lib.cipher key, key))
      else (map_err (λ e. codes "decode master key: " ++ e) (base64_to_key lib.cipher known)
          >>= λ key. ok (known, key))

  -- The entry "default" is replaced where it first stands, or appended.
  unfoldable pub put_key : ApiKeyEntry → List ApiKeyEntry → List ApiKeyEntry
  put_key new [] = new ∷ []
  put_key new (k ∷ ks) =
      let rest = put_key new ks in if text_eq k.id (codes "default") then new ∷ ks else k ∷ rest

  abbrev pub new_entry : Text → ApiKeyEntry
  new_entry plain = record {
    id = codes "default";
    key_hash = hash_api_key plain;
    description = codes "generated by setup";
  }

  -- The settings that are empty get their defaults.
  unfoldable pub with_defaults : SyncConfig → SyncConfig
  with_defaults s = record {
    interval = if is_empty s.interval then codes "5m" else s.interval;
    batch_size = if is_zero s.batch_size then pos 500 else s.batch_size;
    watermark_column =
        if is_empty s.watermark_column then codes "updated_at" else s.watermark_column;
  }

  -- `cfg, _ := store.Load(configPath)`
  unfoldable pub loaded_or_empty : Result Text Config → Config
  loaded_or_empty (ok cfg) = cfg
  loaded_or_empty (err e) = Stored.empty

  -- The configuration with the new VPS, key and defaults.
  unfoldable pub merged : VpsConfig → Text → Config → Config
  merged vps plain cfg = record {
    vps = vps;
    keys = put_key (new_entry plain) cfg.keys;
    sync = with_defaults cfg.sync;
  }

  abbrev pub new_vps : Answers → ℤ → VpsConfig
  new_vps a port = record {
    host = a.host;
    port = port;
    database = a.database;
    username = a.username;
    password_encrypted = [];
  }

  module _ (m : Meets) (existing : Text) (files : Files) where
    abbrev pub known_master : Text
    known_master = given_or_read existing (read_master_key m.read_dotenv files.dotenv)

    -- The password is encrypted with the master key.
    unfoldable pub with_master : Answers → ℤ → Text → Text × Text → Result Text Written
    with_master a port plain (b64, key) =
        map_err (λ e. codes "encrypt vps password: " ++ e)
          (set_encrypted_password lib.cipher m.nonce_random a.password key (new_vps a port))
        >>= λ vps. ok (record {
          config = merged vps plain (loaded_or_empty (load lib.yaml m.read_config files.config));
          api_key = plain;
          master = b64;
        })

    unfoldable pub with_key : Answers → ℤ → Text → Result Text Written
    with_key a port plain = master_key known_master m.master_random >>= with_master a port plain

    unfoldable pub with_answers : Answers → Result Text Written
    unfolding port_number connected
    with_answers a = do
      port ← port_number a.port (atoi a.port)
      up ← connected m.connect
      plain ← api_key_or_new a.api_key m.api_random
      with_key a port plain

    -- All that comes before the first file is written.
    unfoldable pub prepare : Result Text Written
    prepare = do
      list ← map_err (λ e. codes "prompt: " ++ e) m.answers
      a ← six_answers list
      with_answers a

    unfoldable pub saved :
        Written → Option Text → Option Text × Option Text → Result Text Written × Files
    saved w dotenv (some e, config) =
        (err (codes "save config: " ++ e), record { dotenv = dotenv; config = config })
    saved w dotenv (none, config) = (ok w, record { dotenv = dotenv; config = config })

    unfoldable pub save_both : Written → Option Text × Option Text → Result Text Written × Files
    save_both w (some e, dotenv) = (err (codes "write dotenv: " ++ e), files)
    save_both w (none, dotenv) = saved w dotenv (save lib.yaml m.save_config w.config files.config)

    -- The files are written only once all before has succeeded.
    unfoldable pub write_files : Result Text Written → Result Text Written × Files
    write_files (err e) = (err e, files)
    write_files (ok w) = save_both w (write_dotenv m.write_dotenv w.master files.dotenv)

    unfoldable pub run_prompt_flow : Result Text Written × Files
    run_prompt_flow = write_files prepare
