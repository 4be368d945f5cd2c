-- ===== src/Settings.antt =====
-- internal/config/config.go: the settings of a command from its environment. The library viper and
-- `time.ParseDuration` are parameters; a duration is in nanoseconds.
pub mod Laws
pub mod Samples
mod Tests
use gateway_login.Base.{
  ◌≡◌, true, false, Option, none, some, List, [], ◌∷◌, ◌++◌, Text, text_eq, codes, is_empty, Result,
  ok, err, map_err, Bool, ◌>>=◌, if◌then◌else◌, ℤ, pos,
}

pub record Settings : Type 0 where
  pub http_addr : Text
  pub postgres_dsn : Text
  pub redis_addr : Text
  pub redis_password : Text
  pub redis_db : ℤ
  pub master_key : Text
  pub sync_interval : ℤ
  pub sync_batch_size : ℤ
  pub api_rate_limit_per_min : ℤ
  pub log_level : Text

-- The value of a call of `SetDefault`.
pub data Default : Type 0 where
  text : Text → Default
  number : ℤ → Default

pub record Libraries : Type 0 where
  -- `GetString` and `GetInt` of a viper with AutomaticEnv, the environment and the defaults.
  pub get_string : (Text → Text) → List (Text × Default) → Text → Text
  pub get_int : (Text → Text) → List (Text × Default) → Text → ℤ
  -- The number in a text, as viper's library of conversions reads it.
  pub to_int : Text → ℤ
  pub parse_duration : Text → Result Text ℤ

unfoldable pub default_of : Text → List (Text × Default) → Option Default
default_of k [] = none
default_of k ((name, d) ∷ ds) = if text_eq name k then some d else default_of k ds

-- What viper documents: a variable that is not empty comes first, then the default, then the zero
-- value.
pub record IsViper (lib : Libraries) : Type 0 where
  pub string_set :
      (env : Text → Text) (ds : List (Text × Default)) (k : Text)
      → is_empty (env k) ≡ false
      → lib.get_string env ds k ≡ env k
  pub string_default :
      (env : Text → Text) (ds : List (Text × Default)) (k t : Text)
      → is_empty (env k) ≡ true
      → default_of k ds ≡ some (text t)
      → lib.get_string env ds k ≡ t
  pub string_unset :
      (env : Text → Text) (ds : List (Text × Default)) (k : Text)
      → is_empty (env k) ≡ true
      → default_of k ds ≡ none
      → lib.get_string env ds k ≡ []
  pub int_set :
      (env : Text → Text) (ds : List (Text × Default)) (k : Text)
      → is_empty (env k) ≡ false
      → lib.get_int env ds k ≡ lib.to_int (env k)
  pub int_default :
      (env : Text → Text) (ds : List (Text × Default)) (k : Text) (n : ℤ)
      → is_empty (env k) ≡ true
      → default_of k ds ≡ some (number n)
      → lib.get_int env ds k ≡ n

abbrev pub defaults : List (Text × Default)
defaults =
    (codes "GATEWAY_HTTP_ADDR", text (codes ":8080"))
    ∷ (codes "REDIS_PASSWORD", text [])
    ∷ (codes "REDIS_DB", number (pos 0))
    ∷ (codes "SYNC_INTERVAL", text (codes "5m"))
    ∷ (codes "SYNC_BATCH_SIZE", number (pos 500))
    ∷ (codes "API_RATE_LIMIT_PER_MIN", number (pos 300))
    ∷ (codes "LOG_LEVEL", text (codes "info"))
    ∷ []

abbrev pub required : List Text
required = codes "POSTGRES_DSN" ∷ codes "REDIS_ADDR" ∷ codes "GATEWAY_MASTER_KEY" ∷ []

abbrev pub missing : Text → Text
missing k = codes "required env var missing or empty: " ++ k

module _ (lib : Libraries) (env : Text → Text) where
  abbrev pub get_string : Text → Text
  get_string k = lib.get_string env defaults k

  abbrev pub get_int : Text → ℤ
  get_int k = lib.get_int env defaults k

  -- The loop over `required`.
  unfoldable pub check_required : List Text → Result Text Bool
  check_required [] = ok true
  check_required (k ∷ ks) = if is_empty (get_string k) then err (missing k) else check_required ks

  unfoldable pub load : Result Text Settings
  unfolding check_required
  load = do
    present ← check_required required
    sync_interval ←
        map_err (λ e. codes "invalid SYNC_INTERVAL: " ++ e)
          (lib.parse_duration (get_string (codes "SYNC_INTERVAL")))
    ok (record {
      http_addr = get_string (codes "GATEWAY_HTTP_ADDR");
      postgres_dsn = get_string (codes "POSTGRES_DSN");
      redis_addr = get_string (codes "REDIS_ADDR");
      redis_password = get_string (codes "REDIS_PASSWORD");
      redis_db = get_int (codes "REDIS_DB");
      master_key = get_string (codes "GATEWAY_MASTER_KEY");
      sync_interval = sync_interval;
      sync_batch_size = get_int (codes "SYNC_BATCH_SIZE");
      api_rate_limit_per_min = get_int (codes "API_RATE_LIMIT_PER_MIN");
      log_level = get_string (codes "LOG_LEVEL");
    })
