-- ===== src/Base/Int.antt =====
-- Go's signed integers, over the native numbers, under the library's names.
use Prim.Native.Nat.{ℕ, zero, suc, ◌+◌, ◌-◌, ◌*◌, ◌%◌, ◌^◌, ◌<◌}
use mathlib.Core.Bool.{Bool}
use gateway_login.Base.Bools.{ltb, leb, ◌==◌, if◌then◌else◌}

-- `negsuc n` is -(n + 1).
pub data ℤ : Type 0 where
  pos : ℕ → ℤ
  negsuc : ℕ → ℤ

abbrev pub pos_part : ℤ → ℕ
pos_part (pos n) = n
pos_part (negsuc n) = 0

abbrev pub neg_part : ℤ → ℕ
neg_part (pos n) = 0
neg_part (negsuc n) = suc n

abbrev pub ltb_ℤ : ℤ → ℤ → Bool
ltb_ℤ a b = ltb (pos_part a + neg_part b) (pos_part b + neg_part a)

abbrev pub leb_ℤ : ℤ → ℤ → Bool
leb_ℤ a b = leb (pos_part a + neg_part b) (pos_part b + neg_part a)

-- `-x` on 64-bit integers, whose least one is its own negation.
unfoldable pub neg_i64 : ℤ → ℤ
neg_i64 (pos zero) = pos 0
neg_i64 (pos (suc n)) = negsuc n
neg_i64 (negsuc n) = if n + 1 == 2 ^ 63 then negsuc n else pos (n + 1)

-- An integer as 64 bits keep it: they wrap around at 2 ^ 63.
unfoldable pub wrap_i64 : ℤ → ℤ
wrap_i64 (pos n) = let m = n % 2 ^ 64 in if ltb m (2 ^ 63) then pos m else negsuc (2 ^ 64 - m - 1)
wrap_i64 (negsuc n) =
    let m = n % 2 ^ 64 in if ltb m (2 ^ 63) then negsuc m else pos (2 ^ 64 - m - 1)

-- `2 * x` on 64-bit integers.
unfoldable pub double_i64 : ℤ → ℤ
unfolding wrap_i64
double_i64 (pos n) = wrap_i64 (pos (2 * n))
double_i64 (negsuc n) = wrap_i64 (negsuc (2 * n + 1))

-- The values of Go's 64-bit `int`.
abbrev pub IsInt64 : ℤ → Type 0
IsInt64 (pos n) = n < 2 ^ 63
IsInt64 (negsuc n) = n < 2 ^ 63
