-- ===== src/Settings/Laws.antt =====
-- `Load` of internal/config/config.go against a table of the variables.
use gateway_login.Base.{
  ◌≡◌, refl, Bool, true, false, none, some, [], ◌∷◌, ◌++◌, Text, text_eq, text_or, codes, is_empty,
  Result, ok, err, map_err, ◌>>=◌, if◌then◌else◌, ℤ, pos, Bool-cases, inl, inr,
}
use gateway_login.Settings.{
  Settings, Libraries, IsViper, text, number, default_of, defaults, missing, get_string, get_int,
  check_required, load,
}

module _ (lib : Libraries) (env : Text → Text) where
  -- A number, with its fallback.
  abbrev pub int_or : ℤ → Text → ℤ
  int_or fallback [] = fallback
  int_or fallback (c ∷ s) = lib.to_int (c ∷ s)

  -- The table of the variables, without viper.
  abbrev pub table : ℤ → Settings
  table sync_interval = record {
    http_addr = text_or (codes ":8080") (env (codes "GATEWAY_HTTP_ADDR"));
    postgres_dsn = env (codes "POSTGRES_DSN");
    redis_addr = env (codes "REDIS_ADDR");
    redis_password = env (codes "REDIS_PASSWORD");
    redis_db = int_or (pos 0) (env (codes "REDIS_DB"));
    master_key = env (codes "GATEWAY_MASTER_KEY");
    sync_interval = sync_interval;
    sync_batch_size = int_or (pos 500) (env (codes "SYNC_BATCH_SIZE"));
    api_rate_limit_per_min = int_or (pos 300) (env (codes "API_RATE_LIMIT_PER_MIN"));
    log_level = text_or (codes "info") (env (codes "LOG_LEVEL"));
  }

  abbrev pub with_interval : Result Text ℤ → Result Text Settings
  with_interval (ok n) = ok (table n)
  with_interval (err e) = err (codes "invalid SYNC_INTERVAL: " ++ e)

  -- The first required variable that is empty, or the interval, decides.
  abbrev pub settings_of : Result Text Settings
  settings_of =
      if is_empty (env (codes "POSTGRES_DSN"))
      then err (missing (codes "POSTGRES_DSN"))
      else if is_empty (env (codes "REDIS_ADDR"))
      then err (missing (codes "REDIS_ADDR"))
      else if is_empty (env (codes "GATEWAY_MASTER_KEY"))
      then err (missing (codes "GATEWAY_MASTER_KEY"))
      else with_interval (lib.parse_duration (text_or (codes "5m") (env (codes "SYNC_INTERVAL"))))

  module _ (good : IsViper lib) where
    text_or-some : (d t : Text) → is_empty t ≡ false → text_or d t ≡ t
    text_or-some d [] h = absurd (cc)
    text_or-some d (c ∷ t) h = refl

    text_or-nil : (d t : Text) → is_empty t ≡ true → text_or d t ≡ d
    text_or-nil d [] h = refl
    text_or-nil d (c ∷ t) h = absurd (cc)

    text_or_self : (t : Text) → text_or [] t ≡ t
    text_or_self [] = refl
    text_or_self (c ∷ t) = refl

    int_or-some : (n : ℤ) (t : Text) → is_empty t ≡ false → int_or n t ≡ lib.to_int t
    int_or-some n [] h = absurd (cc)
    int_or-some n (c ∷ t) h = refl

    int_or-nil : (n : ℤ) (t : Text) → is_empty t ≡ true → int_or n t ≡ n
    int_or-nil n [] h = refl
    int_or-nil n (c ∷ t) h = absurd (cc)

    is_empty-nil : (t : Text) → is_empty t ≡ true → t ≡ []
    is_empty-nil [] h = refl
    is_empty-nil (c ∷ t) h = absurd (cc)

    get_string-text_or :
        (k d : Text)
        → default_of k defaults ≡ some (text d)
        → get_string lib env k ≡ text_or d (env k)
    get_string-text_or k d h = elim (Bool-cases (is_empty (env k))) [
      | inl unset ↦
          rw (good.string_default env defaults k d unset h, text_or-nil d (env k) unset) refl
      | inr given ↦ rw (good.string_set env defaults k given, text_or-some d (env k) given) refl
    ]

    get_string-env : (k : Text) → default_of k defaults ≡ none → get_string lib env k ≡ env k
    get_string-env k h = elim (Bool-cases (is_empty (env k))) [
      | inl unset ↦ rw (good.string_unset env defaults k unset h, is_empty-nil (env k) unset) refl
      | inr given ↦ good.string_set env defaults k given
    ]

    get_int-int_or :
        (k : Text) (n : ℤ)
        → default_of k defaults ≡ some (number n)
        → get_int lib env k ≡ int_or n (env k)
    get_int-int_or k n h = elim (Bool-cases (is_empty (env k))) [
      | inl unset ↦ rw (good.int_default env defaults k n unset h, int_or-nil n (env k) unset) refl
      | inr given ↦ rw (good.int_set env defaults k given, int_or-some n (env k) given) refl
    ]

    three_checks :
        (p r m : Bool) (e1 e2 e3 : Text) (d : Result Text ℤ)
        → ((if p then err e1 else if r then err e2 else if m then err e3 else ok true)
            >>= λ present.
                map_err (λ e. codes "invalid SYNC_INTERVAL: " ++ e) d >>= λ n. ok (table n))
          ≡ (if p then err e1 else if r then err e2 else if m then err e3 else with_interval d)
    three_checks true r m e1 e2 e3 d = refl
    three_checks false true m e1 e2 e3 d = refl
    three_checks false false true e1 e2 e3 d = refl
    three_checks false false false e1 e2 e3 (ok n) = refl
    three_checks false false false e1 e2 e3 (err e) = refl

    -- Let viper do what is documented of it. Load gives the table: each variable that is not
    -- empty, or its default; and if POSTGRES_DSN, REDIS_ADDR or GATEWAY_MASTER_KEY is empty, the
    -- error of the first of them, and else that of an interval that is not a duration.
    pub load-settings_of : load lib env ≡ settings_of
    unfolding load check_required default_of text_eq
    load-settings_of =
        rw
          (
            get_string-env (codes "POSTGRES_DSN") refl,
            get_string-env (codes "REDIS_ADDR") refl,
            get_string-env (codes "GATEWAY_MASTER_KEY") refl,
            get_string-text_or (codes "GATEWAY_HTTP_ADDR") (codes ":8080") refl,
            get_string-text_or (codes "REDIS_PASSWORD") [] refl,
            text_or_self (env (codes "REDIS_PASSWORD")),
            get_string-text_or (codes "SYNC_INTERVAL") (codes "5m") refl,
            get_string-text_or (codes "LOG_LEVEL") (codes "info") refl,
            get_int-int_or (codes "REDIS_DB") (pos 0) refl,
            get_int-int_or (codes "SYNC_BATCH_SIZE") (pos 500) refl,
            get_int-int_or (codes "API_RATE_LIMIT_PER_MIN") (pos 300) refl,
          )
          (three_checks (is_empty (env (codes "POSTGRES_DSN")))
            (is_empty (env (codes "REDIS_ADDR"))) (is_empty (env (codes "GATEWAY_MASTER_KEY")))
            (missing (codes "POSTGRES_DSN")) (missing (codes "REDIS_ADDR"))
            (missing (codes "GATEWAY_MASTER_KEY"))
            (lib.parse_duration (text_or (codes "5m") (env (codes "SYNC_INTERVAL")))))
