-- ===== src/Api/Json/Numbers.antt =====
-- The integers of encoding/json, read back.
use gateway_login.Base.{
  ℕ, zero, suc, ◌≡◌, ◌≢◌, refl, ap, ◌∙◌, true, false, some, [], ◌∷◌, ◌++◌, Text, All, arith, ℤ, pos,
  negsuc, IsInt64,
}
use gateway_login.Decimal.{atoi}
use gateway_login.Decimal.Digits.{IsDigit, digits-All, digits-ne-nil}
use gateway_login.Decimal.RoundTrip.{atoi-positive, atoi-negative}
use gateway_login.Api.Json.{number, format_int}
use gateway_login.Api.Json.Reader.{
  is_number_byte, number_bytes, read_number, checked, read_value, opening, other,
}

-- What stands behind a number begins with no byte of a number.
abbrev pub IsEnd : Text → Type 0
IsEnd [] = Unit
IsEnd (c ∷ s) = is_number_byte c ≡ false

abbrev AreNumberBytes : Text → Type 0
AreNumberBytes t = All (λ c. is_number_byte c ≡ true) t

number_bytes-append :
    (t rest : Text) → AreNumberBytes t → IsEnd rest → number_bytes (t ++ rest) ≡ (t, rest)
unfolding number_bytes
number_bytes-append [] [] h e = refl
number_bytes-append [] (c ∷ s) h e = rw e
number_bytes-append (c ∷ t) rest (h, hs) e = rw (number_bytes-append t rest hs e, h)

digits_are : (t : Text) → All IsDigit t → AreNumberBytes t
digits_are [] h = tt
digits_are (c ∷ t) (h, hs) = (ground arith, digits_are t hs)

format_int-bytes : (i : ℤ) → AreNumberBytes (format_int i)
unfolding format_int
format_int-bytes (pos zero) = (refl, tt)
format_int-bytes (pos (suc n)) = digits_are _ (digits-All (suc n) [] tt)
format_int-bytes (negsuc n) = (refl, digits_are _ (digits-All (suc n) [] tt))

format_int-ne-nil : (i : ℤ) → format_int i ≢ []
unfolding format_int
format_int-ne-nil (pos zero) h = cc
format_int-ne-nil (pos (suc n)) h = digits-ne-nil n h
format_int-ne-nil (negsuc n) h = cc

atoi-format_int : (i : ℤ) → IsInt64 i → atoi (format_int i) ≡ (i, true)
unfolding format_int
atoi-format_int (pos zero) h = unfold atoi in refl
atoi-format_int (pos (suc n)) h = atoi-positive n h
atoi-format_int (negsuc n) h = atoi-negative n h

read_value-bytes :
    (n : ℕ) (t rest : Text)
    → t ≢ []
    → AreNumberBytes t
    → read_value (suc n) (t ++ rest) ≡ read_number (number_bytes (t ++ rest))
unfolding read_value
read_value-bytes n [] rest ne h = absurd (ne refl)
read_value-bytes n (c ∷ t) rest ne (h, hs) =
    let plainly : opening c ≡ other = ground arith in rw (plainly, read_value)

pub read_value-format_int :
    (n : ℕ) (i : ℤ) (rest : Text)
    → IsInt64 i
    → IsEnd rest
    → read_value (suc n) (format_int i ++ rest) ≡ some (number i, rest)
read_value-format_int n i rest fits e =
    read_value-bytes n (format_int i) rest (format_int-ne-nil i) (format_int-bytes i)
    ∙ ap read_number (number_bytes-append (format_int i) rest (format_int-bytes i) e)
    ∙ ap (λ r. checked r rest) (atoi-format_int i fits)

-- A number begins with a digit or a minus.
pub format_int-head :
    (i : ℤ) → (c : ℕ) × (t : Text) × (format_int i ≡ c ∷ t) × (is_number_byte c ≡ true)
format_int-head i = go (format_int i) refl (format_int-bytes i)
  where
    go :
        (s : Text)
        → format_int i ≡ s
        → AreNumberBytes s
        → (c : ℕ) × (t : Text) × (format_int i ≡ c ∷ t) × (is_number_byte c ≡ true)
    go [] e h = absurd (format_int-ne-nil i e)
    go (c ∷ t) e (h, hs) = (c, t, e, h)
