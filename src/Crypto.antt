-- ===== src/Crypto.antt =====
-- internal/crypto/aes.go: AES-256-GCM around base64. The cipher, base64 and the source of random
-- bytes are the standard library's.
pub mod RoundTrip
use gateway_login.Base.{
  ℕ, ◌≡◌, Bool, true, false, Option, none, some, List, [], ◌<◌, ◌++◌, Text, codes, Result, ok, err,
  ◌>>=◌, if◌then◌else◌, length, take, drop, ltb, ◌==◌, pos,
}
use gateway_login.Decimal.{itoa}

-- Sealing gives the ciphertext and its tag; opening fails if they are not authentic. `encode` and
-- `decode` are base64.
pub record Cipher : Type 0 where
  pub nonce_size : ℕ
  pub seal : Text → Text → Text → Text
  pub open_sealed : Text → Text → Text → Option Text
  pub encode : Text → Text
  pub decode : Text → Option Text

-- What the standard library documents of both.
pub record IsCipher (c : Cipher) : Type 0 where
  pub opens :
      (key nonce plain : Text)
      → length key ≡ 32
      → length nonce ≡ c.nonce_size
      → c.open_sealed key nonce (c.seal key nonce plain) ≡ some plain
  pub decodes : (s : Text) → c.decode (c.encode s) ≡ some s
  pub decodes_empty : c.decode [] ≡ some []
  pub has_nonce : 0 < c.nonce_size

-- `io.ReadFull(rand.Reader, b)`, and `rand.Read(b)`, for a buffer of that many bytes.
abbrev pub Entropy : Type 0
Entropy = ℕ → Result Text Text

-- A buffer that is read is full.
abbrev pub Fills : Entropy → Type 0
Fills random = (n : ℕ) (b : Text) → random n ≡ ok b → length b ≡ n

abbrev pub key_size : ℕ
key_size = 32

unfoldable pub size_error : Text → Text
unfolding itoa
size_error key = codes "key must be 32 bytes, got " ++ itoa (pos (length key))

-- A fresh key.
unfoldable pub new_random_key : Entropy → Result Text Text
new_random_key random = random key_size

or_error : Text → Option Text → Result Text Text
or_error e none = err e
or_error e (some t) = ok t

module _ (c : Cipher) where
  unfoldable pub encrypt : Entropy → Text → Text → Result Text Text
  encrypt random key plain =
      if length key == key_size
      then (random c.nonce_size >>= λ nonce. ok (c.encode (nonce ++ c.seal key nonce plain)))
      else err (size_error key)

  -- The nonce stands before what was sealed.
  unfoldable pub open_raw : Text → Text → Result Text Text
  unfolding or_error
  open_raw key raw =
      if ltb (length raw) c.nonce_size
      then err (codes "ciphertext too short")
      else or_error (codes "cipher: message authentication failed")
          (c.open_sealed key (take c.nonce_size raw) (drop c.nonce_size raw))

  unfoldable pub decrypt : Text → Text → Result Text Text
  unfolding or_error
  decrypt key text =
      if length key == key_size
      then (or_error (codes "illegal base64 data") (c.decode text) >>= open_raw key)
      else err (size_error key)

  unfoldable pub key_to_base64 : Text → Text
  key_to_base64 b = c.encode b

  unfoldable pub base64_to_key : Text → Result Text Text
  unfolding or_error
  base64_to_key s = do
    b ← or_error (codes "illegal base64 data") (c.decode s)
    if length b == key_size then ok b else err (size_error b)
