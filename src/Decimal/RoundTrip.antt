-- ===== src/Decimal/RoundTrip.antt =====
-- `itoa` of internal/karyawan/repo.go against `Atoi`, and the length of what it writes.
use gateway_login.Base.{
  ℕ, zero, suc, ◌^◌, ◌<◌, ◌≤◌, ◌≡◌, ◌≢◌, refl, [], ◌∷◌, true, false, ◌-◌, arith, length, Text, All,
  ◌==◌, ℤ, pos, negsuc, ltb_ℤ, lt_wf, IsInt64,
}
use native.Mathlib.Decide.{dec_lt}
use gateway_login.Decimal.{emit, negate, digits, scan, signed, unsigned, value, itoa, atoi}
use gateway_login.Decimal.Digits.{scan-digits, length-digits, digits-All, digits-ne-nil, IsDigit}

unsigned_scan : (s : Text) → s ≢ [] → unsigned true s ≡ signed true (scan s 0)
unfolding unsigned
unsigned_scan [] h = absurd (h refl)
unsigned_scan (c ∷ s) h = refl

atoi-digits : (s : Text) → s ≢ [] → All IsDigit s → atoi s ≡ signed false (scan s 0)
unfolding atoi
atoi-digits [] h a = absurd (h refl)
atoi-digits (c ∷ s) h a = ground arith

unsigned-digits : (n : ℕ) → 0 < n → n < 2 ^ 64 → scan (digits n []) 0 ≡ value n
unfolding scan
unsigned-digits n p h = scan-digits n [] h

is_negative : (n : ℕ) → ltb_ℤ (negsuc n) (pos 0) ≡ true
is_negative n = ground arith

negate_negsuc : (n : ℕ) → n < 2 ^ 63 - 1 → negate (negsuc n) ≡ pos (suc n)
negate_negsuc n h = ground arith

itoa-negsuc : (n : ℕ) → n < 2 ^ 63 - 1 → itoa (negsuc n) ≡ b'-' ∷ digits (suc n) []
unfolding itoa
itoa-negsuc n h = rw (is_negative n, negate_negsuc n h)

itoa-least : itoa (negsuc (2 ^ 63 - 1)) ≡ b'-' ∷ []
unfolding itoa digits emit lt_wf
itoa-least = refl

pub atoi-negative : (n : ℕ) → n < 2 ^ 63 → atoi (b'-' ∷ digits (suc n) []) ≡ (negsuc n, true)
unfolding atoi signed
atoi-negative n h = ground (
  arith,
  unsigned_scan (digits (suc n) []) (digits-ne-nil n),
  unsigned-digits (suc n) (omega arith) (omega arith),
)

pub itoa-pos : (n : ℕ) → itoa (pos (suc n)) ≡ digits (suc n) []
unfolding itoa
itoa-pos n =
    let positive : ltb_ℤ (pos (suc n)) (pos 0) ≡ false = ground arith in
    let nonzero : (suc n == 0) ≡ false = ground arith in rw (positive, nonzero)

pub atoi-positive : (n : ℕ) → suc n < 2 ^ 63 → atoi (digits (suc n) []) ≡ (pos (suc n), true)
unfolding signed
atoi-positive n h = ground (
  arith,
  atoi-digits _ (digits-ne-nil n) (digits-All (suc n) [] tt),
  unsigned-digits (suc n) (omega arith) (omega arith),
)

-- Every 64-bit integer but the least is read back from what `itoa` writes, with no error.
pub atoi-itoa : (i : ℤ) → IsInt64 i → i ≢ negsuc (2 ^ 63 - 1) → atoi (itoa i) ≡ (i, true)
unfolding itoa
atoi-itoa (pos zero) h ne = unfold atoi in refl
atoi-itoa (pos (suc n)) h ne = rw (itoa-pos n) (atoi-positive n h)
atoi-itoa (negsuc n) h ne = rw (itoa-negsuc n (grind arith)) (atoi-negative n h)

-- What `itoa` writes fits the 20 bytes of its buffer, whatever the 64-bit value.
pub length-itoa : (i : ℤ) → IsInt64 i → length (itoa i) ≤ 20
length-itoa (pos n) h = unfold itoa in ground (arith, length-digits 19 n [] (omega arith))
length-itoa (negsuc n) h = elim (dec_lt n (2 ^ 63 - 1)) [
  | yes p ↦ rw (itoa-negsuc n p) (omega (arith, length-digits 19 (suc n) [] (omega arith)))
  | no p ↦ let e : n ≡ 2 ^ 63 - 1 = omega arith in rw (e, itoa-least) (omega arith)
]
