-- ===== src/Setup/Tests.antt =====
-- Setup with a simple cipher and simple files.
use gateway_login.Base.{
  text_eq, if◌then◌else◌, ◌>>=◌, ◌≡◌, refl, none, some, [], ◌∷◌, Text, codes, ok, err, ◌⊎◌,
}
use gateway_login.Decimal.{atoi}
use gateway_login.Crypto.{new_random_key, encrypt, decrypt, base64_to_key, key_to_base64}
use gateway_login.Crypto.RoundTrip.{decrypt-encrypt, base64_to_key-key_to_base64}
use gateway_login.Stored.{set_encrypted_password, load, save}
use gateway_login.Setup.{
  Meets, Written, six_answers, api_key_or_new, given_or_read, master_key, merged, put_key,
  with_defaults, loaded_or_empty, with_key, with_answers, with_master, prepare, saved, save_both,
  run_prompt_flow, write_files, dotenv_text, write_dotenv, read_master_key,
}
use gateway_login.Setup.Dotenv.{read_master_key-write_dotenv}
use gateway_login.Setup.Environment.{question_names, ask, ask-six_answers}
use mathlib.Core.List.{cons-ne-nil}
use gateway_login.Setup.Failure.{run_prompt_flow-err}
use gateway_login.Setup.Samples.{
  cipher, cipher-IsCipher, bytes, shifted, answers, libraries, meets, nothing, both, padded,
  padded-Fills,
}

decrypt-encrypt_example : decrypt cipher bytes (shifted (7 ∷ codes "secret")) ≡ ok (codes "secret")
unfolding encrypt padded
decrypt-encrypt_example =
    decrypt-encrypt cipher cipher-IsCipher bytes refl (λ n. ok (padded n (7 ∷ []))) (codes "secret")
      (shifted (7 ∷ codes "secret")) (padded-Fills (7 ∷ [])) refl

base64_to_key-key_to_base64_test : base64_to_key cipher (key_to_base64 cipher bytes) ≡ ok bytes
base64_to_key-key_to_base64_test = base64_to_key-key_to_base64 cipher cipher-IsCipher bytes refl

read_master_key-write_dotenv_example :
    read_master_key none (write_dotenv none bytes (some (codes "A=B"))).1 ≡ ok bytes
read_master_key-write_dotenv_example =
    read_master_key-write_dotenv bytes (some (codes "A=B")) (cc) refl

-- The configuration cannot be saved.
abbrev full : Meets
full = record meets { save_config = some (codes "disk full") }

half :
    run_prompt_flow libraries full [] nothing
    ≡ (err (codes "save config: disk full"), record both { config = none })
unfolding padded new_random_key run_prompt_flow write_files save_both saved save write_dotenv
    prepare six_answers with_answers with_key with_master master_key given_or_read read_master_key
    api_key_or_new set_encrypted_password encrypt key_to_base64 merged put_key loaded_or_empty load
    atoi with_defaults
half = refl

run_prompt_flow-err_example :
    (none ≡ nothing.config)
    × ((some (dotenv_text (shifted bytes)) ≡ nothing.dotenv)
        ⊎ ((w : Written) × (prepare libraries full [] nothing ≡ ok w)
            × (some (dotenv_text (shifted bytes)) ≡ some (dotenv_text w.master))))
run_prompt_flow-err_example =
    run_prompt_flow-err libraries full [] nothing (codes "save config: disk full")
      (record both { config = none }) half

-- An environment with a host and a password.
abbrev environment : Text → Text
environment name =
    if text_eq name (codes "SETUP_HOST")
    then codes "vps"
    else if text_eq name (codes "SETUP_PASSWORD")
    then codes "secret"
    else []

ask-six_answers_test :
    (ask environment question_names >>= six_answers)
    ≡ ok (record answers { username = codes "sso_replicator"; api_key = [] })
unfolding text_eq
ask-six_answers_test =
    ask-six_answers environment (cons-ne-nil b'v' (codes "ps")) (cons-ne-nil b's' (codes "ecret"))
