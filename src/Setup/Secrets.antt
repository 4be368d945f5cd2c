-- ===== src/Setup/Secrets.antt =====
-- The master key, the encrypted password and the listed API key of RunPromptFlow
-- (internal/setup/setup.go).
use mathlib.Core.List.{Memᴰ}
use gateway_login.Base.{
  ◌≡◌, refl, List, [], ◌∷◌, ◌++◌, Text, text_eq, is_empty, codes, ok, err, map_err, map_err-ok,
  >>=-ok, Bool-cases, inl, inr, if◌then◌else◌, length,
}
use gateway_login.Crypto.{
  IsCipher, Entropy, Fills, new_random_key, encrypt, decrypt, base64_to_key, key_to_base64,
}
use gateway_login.Crypto.RoundTrip.{
  decrypt-encrypt, base64_to_key-key_to_base64, length-base64_to_key, encrypt-ne-nil,
}
use gateway_login.Stored.{VpsConfig, ApiKeyEntry, set_encrypted_password, get_decrypted_password}
use gateway_login.Setup.{Libraries, master_key, put_key}

pub mem-put_key :
    (lib : Libraries) (new : ApiKeyEntry) (ks : List ApiKeyEntry) → Memᴰ new (put_key lib new ks)
unfolding put_key
mem-put_key lib new [] = Memᴰ.head refl
mem-put_key lib new (k ∷ ks) = elim (Bool-cases (text_eq k.id (codes "default"))) [
  | inl own ↦ rw own (Memᴰ.head refl)
  | inr other ↦ rw other (Memᴰ.tail (mem-put_key lib new ks))
]

module _ (lib : Libraries) (good : IsCipher lib.cipher) where
  -- A master key, as text and as bytes.
  abbrev pub IsPair : Text × Text → Type 0
  IsPair (b64, key) = (base64_to_key lib.cipher b64 ≡ ok key) × (length key ≡ 32)

  pub master_key-IsPair :
      (known : Text) (random : Entropy) (b64 key : Text)
      → Fills random
      → master_key lib known random ≡ ok (b64, key)
      → IsPair (b64, key)
  unfolding master_key new_random_key
  master_key-IsPair [] random b64 key sized h =
      let (k, made, got) =
        >>=-ok _ (map_err (λ e. codes "generate master key: " ++ e) (new_random_key random)) h in
      let fits = sized 32 k (map_err-ok _ (random 32) got) in
      let text : key_to_base64 lib.cipher k ≡ b64 = cc in
      let same : k ≡ key = cc in
      rw (← text, ← same) (base64_to_key-key_to_base64 lib.cipher good k fits, fits)
  master_key-IsPair (c ∷ known) random b64 key sized h =
      let (k, made, got) =
        >>=-ok _
          (map_err (λ e. codes "decode master key: " ++ e) (base64_to_key lib.cipher (c ∷ known)))
          h in
      let read = map_err-ok _ (base64_to_key lib.cipher (c ∷ known)) got in
      let text : c ∷ known ≡ b64 = cc in
      let same : k ≡ key = cc in
      rw (← text, ← same) (read, length-base64_to_key lib.cipher (c ∷ known) k read)

  pub get_decrypted-set_encrypted :
      (random : Entropy) (plain key : Text) (v v' : VpsConfig)
      → length key ≡ 32
      → Fills random
      → set_encrypted_password lib.cipher random plain key v ≡ ok v'
      → get_decrypted_password lib.cipher key v' ≡ ok plain
  unfolding set_encrypted_password get_decrypted_password
  get_decrypted-set_encrypted random plain key v v' fits fills h =
      let (text, set, made) = >>=-ok _ (encrypt lib.cipher random key plain) h in
      let same : record v { password_encrypted = text } ≡ v' = cc in rw (← same) (opened text made)
    where
      opened :
          (text : Text)
          → encrypt lib.cipher random key plain ≡ ok text
          → (if is_empty text
              then err (codes "no encrypted password set")
              else decrypt lib.cipher key text)
            ≡ ok plain
      opened [] made =
          absurd (encrypt-ne-nil lib.cipher good random key plain [] fits fills made refl)
      opened (c ∷ s) made = decrypt-encrypt lib.cipher good key fits random plain (c ∷ s) fills made

  -- Only the encrypted password is set.
  pub set_encrypted_password-fields :
      (random : Entropy) (plain key : Text) (v v' : VpsConfig)
      → set_encrypted_password lib.cipher random plain key v ≡ ok v'
      → v' ≡ record v { password_encrypted = v'.password_encrypted }
  unfolding set_encrypted_password
  set_encrypted_password-fields random plain key v v' h =
      let (text, set, made) = >>=-ok _ (encrypt lib.cipher random key plain) h in
      let same : record v { password_encrypted = text } ≡ v' = cc in rw (← same) refl
