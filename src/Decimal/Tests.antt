-- ===== src/Decimal/Tests.antt =====
-- `itoa` and `Atoi` on concrete numbers.
use gateway_login.Base.{◌≡◌, ◌≤◌, refl, true, false, codes, pos, negsuc, length, lt_wf, arith}
use gateway_login.Decimal.{itoa, atoi, digits, emit}
use gateway_login.Decimal.RoundTrip.{atoi-itoa, length-itoa}

atoi-itoa_example : atoi (itoa (negsuc 41)) ≡ (negsuc 41, true)
atoi-itoa_example = atoi-itoa (negsuc 41) (grind arith) (cc)

length-itoa_test : length (itoa (pos 2026)) ≤ 20
length-itoa_test = length-itoa (pos 2026) (grind arith)

itoa_2026 : itoa (pos 2026) ≡ codes "2026"
unfolding itoa digits emit lt_wf
itoa_2026 = refl

atoi_partial : atoi (codes "12a") ≡ (pos 0, false)
unfolding atoi
atoi_partial = refl
