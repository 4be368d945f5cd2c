-- ===== src/Settings/Samples.antt =====
-- A simple viper, and an environment with the required variables.
use gateway_login.Base.{
  refl, Option, none, some, [], ◌*◌, ◌^◌, Text, text_eq, codes, is_empty, ok, err, if◌then◌else◌, ℤ,
  pos,
}
use gateway_login.Decimal.{atoi}
use gateway_login.Settings.{Settings, Libraries, IsViper, Default, text, number, default_of}

unfoldable pub text_of : Option Default → Text
text_of none = []
text_of (some (text t)) = t
text_of (some (number n)) = []

unfoldable pub number_of : Option Default → ℤ
number_of none = pos 0
number_of (some (text t)) = pos 0
number_of (some (number n)) = n

unfoldable pub libraries : Libraries
unfolding text_of number_of
libraries = record {
  get_string = λ env ds k. if is_empty (env k) then text_of (default_of k ds) else env k;
  get_int = λ env ds k. if is_empty (env k) then number_of (default_of k ds) else (atoi (env k)).0;
  to_int = λ s. (atoi s).0;
  parse_duration = λ s.
      if text_eq s (codes "5m")
      then ok (pos (300 * 10 ^ 9))
      else err (codes "time: invalid duration");
}

pub libraries-IsViper : IsViper libraries
unfolding libraries text_of number_of
libraries-IsViper = record {
  string_set = λ env ds k given. rw given refl;
  string_default = λ env ds k t unset found. rw (unset, found) refl;
  string_unset = λ env ds k unset lost. rw (unset, lost) refl;
  int_set = λ env ds k given. rw given refl;
  int_default = λ env ds k n unset found. rw (unset, found) refl;
}

-- The required variables alone are set.
abbrev pub environment : Text → Text
environment k =
    if text_eq k (codes "POSTGRES_DSN")
    then codes "postgres://db"
    else if text_eq k (codes "REDIS_ADDR")
    then codes "redis:6379"
    else if text_eq k (codes "GATEWAY_MASTER_KEY")
    then codes "0123456789abcdef0123456789abcdef"
    else []

abbrev pub settings : Settings
settings = record {
  http_addr = codes ":8080";
  postgres_dsn = codes "postgres://db";
  redis_addr = codes "redis:6379";
  redis_password = [];
  redis_db = pos 0;
  master_key = codes "0123456789abcdef0123456789abcdef";
  sync_interval = pos (300 * 10 ^ 9);
  sync_batch_size = pos 500;
  api_rate_limit_per_min = pos 300;
  log_level = codes "info";
}
