-- ===== src/Setup/Samples.antt =====
-- Simple libraries, and what a run of setup meets and writes.
use gateway_login.Base.{
  ◌+◌, ◌-◌, ap, ap₂, true, ℕ, zero, suc, ◌≡◌, refl, none, some, [], ◌∷◌, Text, codes, ok, err,
  arith, length, pos,
}
use gateway_login.Setup.Dotenv.{is_line}
use gateway_login.Decimal.{atoi}
use gateway_login.Crypto.{Cipher, IsCipher, Fills, new_random_key, encrypt, key_to_base64}
use gateway_login.Stored
use gateway_login.Stored.{Config, Yaml, set_encrypted_password, load, save}
use gateway_login.Setup.{
  Libraries, Meets, Files, Answers, Written, six_answers, api_key_or_new, given_or_read, master_key,
  new_vps, merged, put_key, with_defaults, loaded_or_empty, with_key, with_answers, with_master,
  prepare, saved, save_both, run_prompt_flow, write_files, dotenv_text, write_dotenv,
  read_master_key,
}

-- A text without newlines for each text, and back.
abbrev pub shifted : Text → Text
shifted [] = []
shifted (c ∷ s) = (c + 11) ∷ shifted s

abbrev pub unshifted : Text → Text
unshifted [] = []
unshifted (c ∷ s) = (c - 11) ∷ unshifted s

unshifted-shifted : (s : Text) → unshifted (shifted s) ≡ s
unshifted-shifted [] = refl
unshifted-shifted (c ∷ s) = ap₂ ◌∷◌ (omega arith) (unshifted-shifted s)

pub shifted-is_line : (s : Text) → is_line (shifted s) ≡ true
shifted-is_line [] = refl
shifted-is_line (c ∷ s) = ground (arith, shifted-is_line s)

-- What is sealed stays as it is.
abbrev pub cipher : Cipher
cipher = record {
  nonce_size = 1;
  seal = λ key nonce plain. plain;
  open_sealed = λ key nonce sealed. some sealed;
  encode = shifted;
  decode = λ s. some (unshifted s);
}

pub cipher-IsCipher : IsCipher cipher
cipher-IsCipher = record {
  opens = λ key nonce plain fits sized. refl;
  decodes = λ s. ap some (unshifted-shifted s);
  decodes_empty = refl;
  has_nonce = omega arith;
}

abbrev pub bytes : Text
bytes = codes "0123456789abcdef0123456789abcdef"

abbrev pub answers : Answers
answers = record {
  host = codes "vps";
  port = codes "3306";
  database = codes "sja";
  username = codes "u";
  password = codes "secret";
  api_key = codes "k";
}

-- The YAML library knows the configuration of the run alone.
abbrev pub shell : Libraries
shell = record {
  cipher = cipher;
  yaml = record { marshal = λ c. []; unmarshal = λ s. none };
  sha256 = λ s. s;
  raw_url_encode = λ s. s;
}

abbrev pub written : Written
written = record {
  config =
      merged shell
        (record (new_vps shell answers (pos 3306)) {
          password_encrypted = shifted (7 ∷ codes "secret");
        })
        (codes "k") Stored.empty;
  api_key = codes "k";
  master = shifted bytes;
}

abbrev pub libraries : Libraries
libraries = record shell {
  yaml = record { marshal = λ c. []; unmarshal = λ s. some written.config };
}

-- That many bytes, of `t` first.
unfoldable pub padded : ℕ → Text → Text
padded zero t = []
padded (suc n) [] = 0 ∷ padded n []
padded (suc n) (c ∷ t) = c ∷ padded n t

length-padded : (n : ℕ) (t : Text) → length (padded n t) ≡ n
unfolding padded
length-padded zero t = refl
length-padded (suc n) [] = rw (length-padded n []) refl
length-padded (suc n) (c ∷ t) = rw (length-padded n t) refl

abbrev pub meets : Meets
meets = record {
  answers =
      ok (codes "vps" ∷ codes "3306" ∷ codes "sja" ∷ codes "u" ∷ codes "secret" ∷ codes "k" ∷ []);
  connect = none;
  api_random = λ n. err (codes "unused");
  read_dotenv = none;
  master_random = λ n. ok (padded n bytes);
  read_config = none;
  nonce_random = λ n. ok (padded n (7 ∷ []));
  write_dotenv = none;
  save_config = none;
}

abbrev pub nothing : Files
nothing = record { dotenv = none; config = none }

abbrev pub both : Files
both = record { dotenv = some (dotenv_text (shifted bytes)); config = some [] }

pub padded-Fills : (t : Text) → Fills (λ n. ok (padded n t))
padded-Fills t n b e = let same : padded n t ≡ b = cc e in rw (← same) (length-padded n t)

pub ran : run_prompt_flow libraries meets [] nothing ≡ (ok written, both)
unfolding padded new_random_key run_prompt_flow write_files save_both saved save write_dotenv
    prepare six_answers with_answers with_key with_master master_key given_or_read read_master_key
    api_key_or_new set_encrypted_password encrypt key_to_base64 merged put_key loaded_or_empty load
    atoi with_defaults
ran = refl
