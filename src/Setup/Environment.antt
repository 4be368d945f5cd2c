-- ===== src/Setup/Environment.antt =====
-- `EnvPrompter.Ask` of internal/setup/setup.go, and what it answers to the questions of setup.
use gateway_login.Base.{
  ◌≡◌, ◌≢◌, refl, false, not, ◌&&◌, List, [], ◌∷◌, ◌++◌, Text, text_eq, codes, is_empty, Result, ok,
  err, text_or, ◌>>=◌, if◌then◌else◌,
}
use gateway_login.Setup.{six_answers}

-- The names of the questions of `RunPromptFlow`.
abbrev pub question_names : List Text
question_names =
    codes "host"
    ∷ codes "port"
    ∷ codes "database"
    ∷ codes "username"
    ∷ codes "password"
    ∷ codes "apiKey"
    ∷ []

module _ (getenv : Text → Text) where
  -- The switch over the question's name.
  unfoldable pub env_value : Text → Text
  env_value name =
      if text_eq name (codes "host")
      then getenv (codes "SETUP_HOST")
      else if text_eq name (codes "port")
      then text_or (codes "3306") (getenv (codes "SETUP_PORT"))
      else if text_eq name (codes "database")
      then text_or (codes "sja") (getenv (codes "SETUP_DATABASE"))
      else if text_eq name (codes "username")
      then text_or (codes "sso_replicator") (getenv (codes "SETUP_USERNAME"))
      else if text_eq name (codes "password")
      then getenv (codes "SETUP_PASSWORD")
      else if text_eq name (codes "apiKey")
      then getenv (codes "SETUP_API_KEY")
      else []

  unfoldable pub checked : Text → Text → Result Text Text
  checked name v =
      if is_empty v && not (text_eq name (codes "apiKey"))
      then err (codes "required env var for " ++ b'"' ∷ name ++ codes "\" not set")
      else ok v

  unfoldable pub ask : List Text → Result Text (List Text)
  ask [] = ok []
  ask (name ∷ names) = do v ← checked name (env_value name); rest ← ask names; ok (v ∷ rest)

  checked-some : (name v : Text) → v ≢ [] → checked name v ≡ ok v
  unfolding checked
  checked-some name [] h = absurd (h refl)
  checked-some name (c ∷ v) h = refl

  checked-api_key : (v : Text) → checked (codes "apiKey") v ≡ ok v
  unfolding checked text_eq
  checked-api_key [] = refl
  checked-api_key (c ∷ v) = refl

  checked-text_or :
      (name d v : Text) → is_empty d ≡ false → checked name (text_or d v) ≡ ok (text_or d v)
  unfolding checked
  checked-text_or name [] v h = absurd (cc)
  checked-text_or name (c ∷ d) [] h = refl
  checked-text_or name (c ∷ d) (x ∷ v) h = refl

  -- With a host and a password in the environment every question of setup is answered: port,
  -- database and user by their defaults where their variables are empty, and the API key by its
  -- variable, empty or not.
  pub ask-six_answers :
      getenv (codes "SETUP_HOST") ≢ []
      → getenv (codes "SETUP_PASSWORD") ≢ []
      → (ask question_names >>= six_answers)
        ≡ ok (record {
          host = getenv (codes "SETUP_HOST");
          port = text_or (codes "3306") (getenv (codes "SETUP_PORT"));
          database = text_or (codes "sja") (getenv (codes "SETUP_DATABASE"));
          username = text_or (codes "sso_replicator") (getenv (codes "SETUP_USERNAME"));
          password = getenv (codes "SETUP_PASSWORD");
          api_key = getenv (codes "SETUP_API_KEY");
        })
  unfolding ask env_value text_eq six_answers
  ask-six_answers host password =
      rw
        (
          checked-some (codes "host") _ host,
          checked-text_or (codes "port") (codes "3306") (getenv (codes "SETUP_PORT")) refl,
          checked-text_or (codes "database") (codes "sja") (getenv (codes "SETUP_DATABASE")) refl,
          checked-text_or (codes "username") (codes "sso_replicator")
              (getenv (codes "SETUP_USERNAME")) refl,
          checked-some (codes "password") _ password,
          checked-api_key (getenv (codes "SETUP_API_KEY")),
        )
        refl
