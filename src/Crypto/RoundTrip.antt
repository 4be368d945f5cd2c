-- ===== src/Crypto/RoundTrip.antt =====
-- Encrypt against Decrypt, and KeyToBase64 against Base64ToKey, of internal/crypto/aes.go.
use gateway_login.Base.{
  ◌≡◌, true, false, ◌++◌, Text, ok, >>=-ok, arith, ap, ◌≢◌, [], length, length-append,
  take-length_self, drop-length_self, ltb, ◌==◌, Bool-cases, inl, inr,
}
use gateway_login.Crypto.{
  Cipher, IsCipher, Entropy, Fills, encrypt, decrypt, open_raw, or_error, key_to_base64,
  base64_to_key,
}

module _ (c : Cipher) (good : IsCipher c) (key : Text) (fits : length key ≡ 32) where
  fits_test : (length key == 32) ≡ true
  fits_test = ground (arith, fits)

  open_raw-append :
      (nonce plain : Text)
      → length nonce ≡ c.nonce_size
      → open_raw c key (nonce ++ c.seal key nonce plain) ≡ ok plain
  unfolding open_raw or_error
  open_raw-append nonce plain sized =
      let long : ltb (length (nonce ++ c.seal key nonce plain)) (length nonce) ≡ false =
        ground (arith, length-append nonce (c.seal key nonce plain)) in
      rw (
        ← sized,
        long,
        take-length_self nonce (c.seal key nonce plain),
        drop-length_self nonce (c.seal key nonce plain),
        good.opens key nonce plain fits sized,
      )

  -- What is encrypted is a full nonce and what was sealed with it.
  pub encrypt-sealed :
      (random : Entropy) (plain text : Text)
      → Fills random
      → encrypt c random key plain ≡ ok text
      → (nonce : Text) × (length nonce ≡ c.nonce_size)
        × (c.encode (nonce ++ c.seal key nonce plain) ≡ text)
  unfolding encrypt
  encrypt-sealed random plain text fills h =
      let (nonce, made, got) = >>=-ok _ (random c.nonce_size) (rw (fits_test, encrypt) at h) in
      (nonce, fills c.nonce_size nonce got, cc made)

  -- If the cipher, base64 and the source of random bytes do what is documented of them, what is
  -- encrypted under a key of 32 bytes is decrypted by the same key to the same text.
  pub decrypt-encrypt :
      (random : Entropy) (plain text : Text)
      → Fills random
      → encrypt c random key plain ≡ ok text
      → decrypt c key text ≡ ok plain
  unfolding decrypt or_error
  decrypt-encrypt random plain text fills h =
      let (nonce, sized, written) = encrypt-sealed random plain text fills h in
      rw (fits_test, ← written, good.decodes (nonce ++ c.seal key nonce plain))
        (open_raw-append nonce plain sized)

  -- If base64 does what is documented of it, a key of 32 bytes is read back from its text.
  pub base64_to_key-key_to_base64 : base64_to_key c (key_to_base64 c key) ≡ ok key
  unfolding base64_to_key key_to_base64 or_error
  base64_to_key-key_to_base64 = rw (good.decodes key, fits_test)

-- A key that is read has 32 bytes.
pub length-base64_to_key :
    (c : Cipher) (s key : Text) → base64_to_key c s ≡ ok key → length key ≡ 32
unfolding base64_to_key
length-base64_to_key c s key h =
    let (b, sized, _) = >>=-ok _ (or_error _ (c.decode s)) h in
    elim (Bool-cases (length b == 32)) [
      | inl full ↦ let same : b ≡ key = cc (rw full at sized) in rw (← same) (ground (arith, full))
      | inr short ↦ absurd (cc (rw short at sized))
    ]

-- What is encrypted is not empty.
pub encrypt-ne-nil :
    (c : Cipher) (good : IsCipher c) (random : Entropy) (key plain text : Text)
    → length key ≡ 32
    → Fills random
    → encrypt c random key plain ≡ ok text
    → text ≢ []
encrypt-ne-nil c good random key plain text fits fills h empty =
    let (nonce, sized, written) = encrypt-sealed c good key fits random plain text fills h in
    let raw = nonce ++ c.seal key nonce plain in
    let nothing : raw ≡ [] = cc (good.decodes raw, good.decodes_empty, written, empty) in
    omega (
      arith,
      good.has_nonce,
      sized,
      length-append nonce (c.seal key nonce plain),
      ap length nothing,
    )
