-- ===== src/Decimal/Digits.antt =====
-- The digit loop: its step, how long its output is, and what reading it back gives.
use native.Mathlib.Nat.{pow-suc}
use mathlib.Core.WellFounded.{Acc}
use mathlib.Core.List.{cons-ne-nil}
use gateway_login.Base.{
  ℕ, zero, suc, ◌+◌, ◌/◌, ◌^◌, ◌<◌, ◌≤◌, ◌≡◌, ◌≢◌, refl, ◌∙◌, [], ◌∷◌, arith, length, Text, All,
}
use gateway_login.Decimal.{last_digit, tenth-lt, emit, digits, scan}

-- One more digit of a number reads as ten times the number and the digit.
scan_digit : (i : ℕ) (s : Text) → i < 2 ^ 64 → scan (last_digit i ∷ s) (i / 10) ≡ scan s i
unfolding scan
scan_digit i s fits = ground arith

scan-emit : (i : ℕ) (w : Acc ◌<◌ i) (buf : Text) → i < 2 ^ 64 → scan (emit i w buf) 0 ≡ scan buf i
unfolding emit
scan-emit zero w buf fits = refl
scan-emit (suc k) (Acc.intro _ below) buf fits =
    scan-emit (suc k / 10) (below (suc k / 10) (tenth-lt k)) (last_digit (suc k) ∷ buf)
      (omega arith)
    ∙ scan_digit (suc k) buf fits

-- Reading what the loop writes before `buf` comes to `buf` with the number.
pub scan-digits : (i : ℕ) (buf : Text) → i < 2 ^ 64 → scan (digits i buf) 0 ≡ scan buf i
unfolding digits
scan-digits i buf fits = scan-emit i _ buf fits

length-emit :
    (room i : ℕ) (w : Acc ◌<◌ i) (buf : Text)
    → i < 10 ^ room
    → length (emit i w buf) ≤ room + length buf
unfolding emit
length-emit room zero w buf small = omega arith
length-emit zero (suc k) w buf small = absurd (omega (arith, small))
length-emit (suc room) (suc k) (Acc.intro _ below) buf small = omega (
  arith,
  length-emit room (suc k / 10) (below (suc k / 10) (tenth-lt k)) (last_digit (suc k) ∷ buf)
      (omega (arith, pow-suc 10 room)),
)

-- Each round adds one byte: below 10 ^ room there are at most `room` rounds.
pub length-digits :
    (room i : ℕ) (buf : Text) → i < 10 ^ room → length (digits i buf) ≤ room + length buf
unfolding digits
length-digits room i buf small = length-emit room i _ buf small

abbrev pub IsDigit : ℕ → Type 0
IsDigit c = (b'0' ≤ c) × (c ≤ b'9')

emit-All : (i : ℕ) (w : Acc ◌<◌ i) (buf : Text) → All IsDigit buf → All IsDigit (emit i w buf)
unfolding emit
emit-All zero w buf h = h
emit-All (suc k) (Acc.intro _ below) buf h =
    emit-All (suc k / 10) (below (suc k / 10) (tenth-lt k)) (last_digit (suc k) ∷ buf)
      (omega arith, h)

pub digits-All : (i : ℕ) (buf : Text) → All IsDigit buf → All IsDigit (digits i buf)
unfolding digits
digits-All i buf h = emit-All i _ buf h

emit-ne-nil : (i : ℕ) (w : Acc ◌<◌ i) (c : ℕ) (buf : Text) → emit i w (c ∷ buf) ≢ []
unfolding emit
emit-ne-nil zero w c buf = cons-ne-nil c buf
emit-ne-nil (suc k) (Acc.intro _ below) c buf =
    emit-ne-nil (suc k / 10) (below (suc k / 10) (tenth-lt k)) (last_digit (suc k)) (c ∷ buf)

digits-suc : (k : ℕ) (w : Acc ◌<◌ (suc k)) → emit (suc k) w [] ≢ []
unfolding emit
digits-suc k (Acc.intro _ below) = emit-ne-nil (suc k / 10) _ (last_digit (suc k)) []

-- A positive number has a digit.
pub digits-ne-nil : (k : ℕ) → digits (suc k) [] ≢ []
unfolding digits
digits-ne-nil k = digits-suc k _
