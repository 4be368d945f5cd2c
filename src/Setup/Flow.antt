-- ===== src/Setup/Flow.antt =====
-- What a run of RunPromptFlow (internal/setup/setup.go) that succeeds leaves in the two files.
use mathlib.Core.List.{Memᴰ}
use mathlib.Core.Path.{subst}
use gateway_login.Base.{
  ◌≡◌, Bool, true, false, refl, sym, none, some, List, ◌++◌, Text, codes, Result, ok, err, map_err,
  map_err-ok, >>=-ok, Option-cases, inl, inr, ℤ,
}
use gateway_login.Crypto.{IsCipher, Fills, base64_to_key}
use gateway_login.Stored.{set_encrypted_password, get_decrypted_password, load, save}
use gateway_login.Decimal.{atoi}
use gateway_login.Setup.{
  Libraries, Meets, Files, Answers, Written, six_answers, port_number, connected, api_key_or_new,
  known_master, master_key, new_vps, new_entry, merged, loaded_or_empty, with_key, with_answers,
  with_master, prepare, saved, save_both, run_prompt_flow, write_files, dotenv_text, write_dotenv,
}
use gateway_login.Setup.Secrets.{
  mem-put_key, master_key-IsPair, get_decrypted-set_encrypted, set_encrypted_password-fields,
}

module _ (lib : Libraries) (good : IsCipher lib.cipher) where
  port_number-ok : (s : Text) (r : ℤ × Bool) (n : ℤ) → port_number s r ≡ ok n → r ≡ (n, true)
  unfolding port_number
  port_number-ok s (n, true) k h = cc
  port_number-ok s (n, false) k h = absurd (cc)

  module _ (m : Meets) (existing : Text) (files : Files) (nonces : Fills m.nonce_random)
      (keys : Fills m.master_random) where
    -- The password can be read with the master key, the key is listed, and the other settings are
    -- those answered.
    abbrev Reads : Answers → ℤ → Written → Type 0
    Reads a port w =
        (key : Text) × (base64_to_key lib.cipher w.master ≡ ok key)
        × (get_decrypted_password lib.cipher key w.config.vps ≡ ok a.password)
        × Memᴰ (new_entry lib w.api_key) w.config.keys
        × (w.config.vps
            ≡ record (new_vps lib a port) { password_encrypted = w.config.vps.password_encrypted })
        × (master_key lib (known_master lib m existing files) m.master_random ≡ ok (w.master, key))

    with_key-Reads :
        (a : Answers) (port : ℤ) (plain : Text) (w : Written)
        → with_key lib m existing files a port plain ≡ ok w
        → Reads a port w
    unfolding with_key with_master merged
    with_key-Reads a port plain w h =
        let ((b64, key), h1, mastered) =
          >>=-ok _ (master_key lib (known_master lib m existing files) m.master_random) h in
        let (read, fits) = master_key-IsPair lib good _ m.master_random b64 key keys mastered in
        let set =
          set_encrypted_password lib.cipher m.nonce_random a.password key (new_vps lib a port) in
        let (v, h2, done) = >>=-ok _ (map_err (λ e. codes "encrypt vps password: " ++ e) set) h1 in
        let opened =
          get_decrypted-set_encrypted lib good m.nonce_random a.password key _ v fits nonces
            (map_err-ok _ set done) in
        let fields =
          set_encrypted_password-fields lib good m.nonce_random a.password key _ v
            (map_err-ok _ set done) in
        subst (Reads a port)
          {x = record {
            config =
                merged lib v plain (loaded_or_empty lib (load lib.yaml m.read_config files.config));
            api_key = plain;
            master = b64;
          }}
          {y = w} (cc h2) (key, read, opened, mem-put_key lib _ _, fields, mastered)

    with_answers-Reads :
        (a : Answers) (w : Written)
        → with_answers lib m existing files a ≡ ok w
        → (port : ℤ) × (atoi a.port ≡ (port, true)) × Reads a port w
    unfolding with_answers
    with_answers-Reads a w h =
        let (port, h1, numbered) = >>=-ok _ (port_number a.port (atoi a.port)) h in
        let (up, h2, _) = >>=-ok _ (connected m.connect) h1 in
        let (plain, h3, _) = >>=-ok _ (api_key_or_new lib a.api_key m.api_random) h2 in
        (port, port_number-ok a.port (atoi a.port) port numbered, with_key-Reads a port plain w h3)

    prepare-Reads :
        (w : Written)
        → prepare lib m existing files ≡ ok w
        → (list : List Text) × (a : Answers) × (m.answers ≡ ok list)
          × (six_answers list ≡ ok a)
          × (port : ℤ) × (atoi a.port ≡ (port, true))
          × Reads a port w
    unfolding prepare
    prepare-Reads w h =
        let (list, h1, got) = >>=-ok _ (map_err (λ e. codes "prompt: " ++ e) m.answers) h in
        let (a, h2, asked) = >>=-ok _ (six_answers list) h1 in
        let (port, numbered, reads) = with_answers-Reads a w h2 in
        (list, a, map_err-ok _ m.answers got, asked, port, numbered, reads)

    -- After a run that succeeded.
    pub record IsWritten (w : Written) (out : Files) : Type 0 where
      pub list : List Text
      pub answers : Answers
      pub port : ℤ
      pub key : Text
      pub answered : m.answers ≡ ok list
      pub asked : six_answers list ≡ ok answers
      pub dotenv : out.dotenv ≡ some (dotenv_text w.master)
      pub config : load lib.yaml none out.config ≡ ok w.config
      pub key_read : base64_to_key lib.cipher w.master ≡ ok key
      pub password : get_decrypted_password lib.cipher key w.config.vps ≡ ok answers.password
      pub listed : Memᴰ (new_entry lib w.api_key) w.config.keys
      pub numbered : atoi answers.port ≡ (port, true)
      pub mastered :
          master_key lib (known_master lib m existing files) m.master_random ≡ ok (w.master, key)
      pub fields : w.config.vps ≡ record (new_vps lib answers port) {
        password_encrypted = w.config.vps.password_encrypted;
      }

    pub run_prompt_flow-IsWritten :
        (w : Written) (out : Files)
        → lib.yaml.unmarshal (lib.yaml.marshal w.config) ≡ some w.config
        → run_prompt_flow lib m existing files ≡ (ok w, out)
        → IsWritten w out
    unfolding run_prompt_flow write_files save_both saved save write_dotenv load
    run_prompt_flow-IsWritten w out yaml h = go (prepare lib m existing files) refl h
      where
        go :
            (p : Result Text Written)
            → prepare lib m existing files ≡ p
            → write_files lib m existing files p ≡ (ok w, out)
            → IsWritten w out
        go (err e) same h = absurd (cc)
        go (ok v) same h = elim (Option-cases m.write_dotenv) [
          | inr (c, broken) ↦ absurd (cc (rw broken at h))
          | inl wrote ↦ elim (Option-cases m.save_config) [
            | inr (c, broken) ↦ absurd (cc (rw (wrote, broken) at h))
            | inl kept ↦
                let (list, a, answered, asked, port, numbered, reads) = prepare-Reads v same in
                let (key, read, opened, listed, fields, mastered) = reads in
                let both : (v ≡ w)
                    × (record {
                      dotenv = some (dotenv_text v.master);
                      config = some (lib.yaml.marshal v.config);
                    }
                        ≡ out) =
                  (cc (rw (wrote, kept) at h), cc (rw (wrote, kept) at h)) in
                let read_back =
                  subst
                    (λ (x : Written).
                      lib.yaml.unmarshal (lib.yaml.marshal x.config) ≡ some x.config)
                    (sym both.0) yaml in
                rw (← both.0, ← both.1)
                  (record {
                    list = list;
                    answers = a;
                    port = port;
                    key = key;
                    answered = answered;
                    asked = asked;
                    dotenv = refl;
                    config = rw read_back refl;
                    key_read = read;
                    password = opened;
                    listed = listed;
                    numbered = numbered;
                    fields = fields;
                    mastered = mastered;
                  })
          ]
        ]
