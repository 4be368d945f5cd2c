-- ===== src/Decimal.antt =====
-- internal/karyawan/repo.go `itoa`, which writes the placeholder numbers of a query, and what
-- internal/api/handlers.go and internal/setup/setup.go use of `strconv.Atoi`.
pub mod Digits
pub mod RoundTrip
mod Tests
use mathlib.Core.WellFounded.{Acc, WellFounded}
use gateway_login.Base.{
  ℕ, zero, suc, ◌+◌, ◌-◌, ◌*◌, ◌/◌, ◌%◌, ◌^◌, ◌<◌, ◌≡◌, List, [], ◌∷◌, Bool, true, false, ◌||◌,
  arith, ltb, ◌==◌, if◌then◌else◌, Text, ℤ, pos, negsuc, pos_part, ltb_ℤ, lt_wf,
}

-- `-i` of a 64-bit `int`: the least value is its own negative.
abbrev pub negate : ℤ → ℤ
negate (pos zero) = pos 0
negate (pos (suc n)) = negsuc n
negate (negsuc n) = if suc n == 2 ^ 63 then negsuc n else pos (suc n)

-- '0' + i%10
abbrev pub last_digit : ℕ → ℕ
last_digit i = b'0' + i % 10

pub tenth-lt : (k : ℕ) → suc k / 10 < suc k
tenth-lt k = omega arith

-- `for i > 0 { pos--; buf[pos] = …; i /= 10 }`: `buf` is what stands from `pos` on.
unfoldable pub emit : (i : ℕ) → Acc ◌<◌ i → Text → Text
emit zero _ buf = buf
emit (suc k) (Acc.intro _ below) buf =
    emit (suc k / 10) (below (suc k / 10) (tenth-lt k)) (last_digit (suc k) ∷ buf)

unfoldable pub digits : ℕ → Text → Text
digits i = emit i (lt_wf.apply i)

-- i == 0
abbrev is_zero : ℤ → Bool
is_zero (pos n) = n == 0
is_zero (negsuc n) = false

-- A value that is not positive makes no round of the loop.
unfoldable pub itoa : ℤ → Text
itoa i =
    let neg = ltb_ℤ i (pos 0) in
    let magnitude = if neg then negate i else i in
    let buf = digits (pos_part magnitude) [] in
    if is_zero i then b'0' ∷ [] else if neg then b'-' ∷ buf else buf

pub data Scan : Type 0 where
  value : ℕ → Scan
  syntax range : Scan

-- The digits of `strconv.ParseUint(s, 10, 64)`.
unfoldable pub scan : Text → ℕ → Scan
scan [] n = value n
scan (c ∷ s) n =
    let d = c - b'0' in
    let rest = scan s (n * 10 + d) in
    if ltb c b'0' || ltb b'9' c
    then syntax
    else if ltb (2 ^ 64 - 1) (n * 10 + d)
    then range
    else rest

-- The value and whether the error is nil: a text that is no number gives 0, one out of range the
-- nearest 64-bit value.
unfoldable pub signed : Bool → Scan → ℤ × Bool
signed neg syntax = (pos 0, false)
signed true range = (negsuc (2 ^ 63 - 1), false)
signed false range = (pos (2 ^ 63 - 1), false)
signed false (value n) = if ltb n (2 ^ 63) then (pos n, true) else (pos (2 ^ 63 - 1), false)
signed true (value zero) = (pos 0, true)
signed true (value (suc n)) =
    if ltb n (2 ^ 63) then (negsuc n, true) else (negsuc (2 ^ 63 - 1), false)

unfoldable pub unsigned : Bool → Text → ℤ × Bool
unsigned neg [] = (pos 0, false)
unsigned neg (c ∷ s) = signed neg (scan (c ∷ s) 0)

unfoldable pub atoi : Text → ℤ × Bool
unfolding scan signed unsigned
atoi [] = (pos 0, false)
atoi (c ∷ s) =
    if c == b'-'
    then unsigned true s
    else if c == b'+'
    then unsigned false s
    else unsigned false (c ∷ s)
