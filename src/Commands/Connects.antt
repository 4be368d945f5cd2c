-- ===== src/Commands/Connects.antt =====
-- `NewClientFromStoreConfig` of internal/vpsmysql/client.go on the files that setup wrote: cmd/setup
-- calls it in its initial synchronisation, and cmd/sync when it starts.
use mathlib.Core.Path.{subst}
use gateway_login.Base.{
  ◌≡◌, refl, ap, true, false, Option, none, some, List, [], ◌∷◌, Text, is_empty, Result, ok, err,
  map_err, >>=-ok, Bool-cases, inl, inr, ℤ,
}
use gateway_login.Decimal.{atoi}
use gateway_login.Crypto.{Fills, Entropy, IsCipher, base64_to_key, key_to_base64, new_random_key}
use gateway_login.Stored.{VpsConfig, Config, get_decrypted_password, load}
use gateway_login.Vps.Connect.{Driver, build_dsn, open_dsn, new_client_from_store_config}
use gateway_login.Setup.{
  Libraries, Meets, Files, Answers, Written, six_answers, run_prompt_flow, dotenv_text,
  given_or_read, known_master, master_key, read_master_key, write_dotenv,
}
use gateway_login.Setup.Dotenv.{is_line, read_master_key-is_line, read_master_key-write_dotenv}
use gateway_login.Setup.Flow.{IsWritten, run_prompt_flow-IsWritten}

module _ (lib : Libraries) (good : IsCipher lib.cipher) (d : Driver) (batch : ℤ) where
  -- No key is the decoding of the empty text.
  is_empty-base64_to_key :
      (b64 key : Text) → base64_to_key lib.cipher b64 ≡ ok key → is_empty b64 ≡ false
  unfolding base64_to_key
  is_empty-base64_to_key [] key h = absurd (cc (rw good.decodes_empty at h))
  is_empty-base64_to_key (c ∷ b64) key h = refl

  new_client-opened :
      (cfg : VpsConfig) (b64 key password : Text)
      → base64_to_key lib.cipher b64 ≡ ok key
      → get_decrypted_password lib.cipher key cfg ≡ ok password
      → new_client_from_store_config d lib.cipher (some cfg) b64 batch
        ≡ open_dsn d (build_dsn d cfg.host cfg.port cfg.database cfg.username password) batch
  unfolding new_client_from_store_config
  new_client-opened cfg b64 key password read opened =
      rw (is_empty-base64_to_key b64 key read, read, opened) refl

  -- What the two files hold, read back from them, and what is opened with it.
  pub record Connects (m : Meets) (out : Files) : Type 0 where
    pub list : List Text
    pub answers : Answers
    pub port : ℤ
    pub master : Text
    pub cfg : Config
    pub answered : m.answers ≡ ok list
    pub asked : six_answers list ≡ ok answers
    pub numbered : atoi answers.port ≡ (port, true)
    pub dotenv : read_master_key none out.dotenv ≡ ok master
    pub config : load lib.yaml none out.config ≡ ok cfg
    pub opens :
        new_client_from_store_config d lib.cipher (some cfg.vps) master batch
        ≡ open_dsn d
            (build_dsn d answers.host port answers.database answers.username answers.password)
            batch

  -- The written configuration is opened with the settings `v`.
  abbrev OpensAs : Written → Text → VpsConfig → Type 0
  OpensAs w password v =
      new_client_from_store_config d lib.cipher (some w.config.vps) w.master batch
      ≡ open_dsn d (build_dsn d v.host v.port v.database v.username password) batch

  -- The text of base64 is one line.
  abbrev pub EncodesLines : Type 0
  EncodesLines = (s : Text) → is_line (lib.cipher.encode s) ≡ true

  given_or_read-is_line :
      (given : Text) (fault file : Option Text)
      → is_line given ≡ true
      → is_line (given_or_read lib given (read_master_key fault file)) ≡ true
  unfolding given_or_read
  given_or_read-is_line given fault file line = go (read_master_key fault file) refl
    where
      go :
          (r : Result Text Text)
          → read_master_key fault file ≡ r
          → is_line (given_or_read lib given r) ≡ true
      go (err e) at = line
      go (ok v) at = elim (Bool-cases (is_empty given)) [
        | inl unset ↦ rw unset (read_master_key-is_line fault file v at)
        | inr set ↦ rw set line
      ]

  master_key-is_line :
      (known : Text) (random : Entropy) (b64 key : Text)
      → EncodesLines
      → is_line known ≡ true
      → master_key lib known random ≡ ok (b64, key)
      → is_line b64 ≡ true
  unfolding master_key key_to_base64
  master_key-is_line [] random b64 key lines line h =
      let (k, made, got) = >>=-ok _ (map_err _ (new_random_key random)) h in
      let text : lib.cipher.encode k ≡ b64 = cc in rw (← text) (lines k)
  master_key-is_line (c ∷ known) random b64 key lines line h =
      let (k, made, got) = >>=-ok _ (map_err _ (base64_to_key lib.cipher (c ∷ known))) h in
      let text : c ∷ known ≡ b64 = cc in rw (← text) line

  written_key_read :
      (master key : Text) (out : Files)
      → base64_to_key lib.cipher master ≡ ok key
      → is_line master ≡ true
      → out.dotenv ≡ some (dotenv_text master)
      → read_master_key none out.dotenv ≡ ok master
  unfolding write_dotenv
  written_key_read master key out read line there = rw there (
      read_master_key-write_dotenv master none
        (λ e. cc (is_empty-base64_to_key master key read, ap is_empty e)) line)

  module _ (m : Meets) (existing : Text) (files : Files) (nonces : Fills m.nonce_random)
      (keys : Fills m.master_random) where
    IsWritten-Connects :
        (w : Written) (out : Files)
        → EncodesLines
        → is_line existing ≡ true
        → IsWritten lib good m existing files nonces keys w out
        → Connects m out
    IsWritten-Connects w out lines line r = record {
      list = r.list;
      answers = r.answers;
      port = r.port;
      master = w.master;
      cfg = w.config;
      answered = r.answered;
      asked = r.asked;
      numbered = r.numbered;
      dotenv =
          written_key_read w.master r.key out r.key_read
            (master_key-is_line (known_master lib m existing files) m.master_random w.master r.key
              lines (given_or_read-is_line existing m.read_dotenv files.dotenv line) r.mastered)
            r.dotenv;
      config = r.config;
      opens =
          subst (OpensAs w r.answers.password) r.fields (
            new_client-opened w.config.vps w.master r.key r.answers.password r.key_read r.password);
    }

    -- Under the hypotheses on the cipher, base64, the random bytes and the YAML library of a run of
    -- setup that succeeded, with base64 on one line and no newline in the key that is given in the
    -- environment: ReadMasterKeyFromDotenv finds a master key in the file that was written, Load
    -- finds a configuration in the other, and a command with that key and that configuration opens
    -- the VPS with the DSN of the host, port, database, user and password that were answered.
    pub run_prompt_flow-Connects :
        (w : Written) (out : Files)
        → lib.yaml.unmarshal (lib.yaml.marshal w.config) ≡ some w.config
        → EncodesLines
        → is_line existing ≡ true
        → run_prompt_flow lib m existing files ≡ (ok w, out)
        → Connects m out
    run_prompt_flow-Connects w out yaml lines line ran =
        IsWritten-Connects w out lines line
          (run_prompt_flow-IsWritten lib good m existing files nonces keys w out yaml ran)
