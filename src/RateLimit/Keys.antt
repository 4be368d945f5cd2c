-- ===== src/RateLimit/Keys.antt =====
-- The keys of the counters in Redis, for internal/redisx/ratelimit.go.
use gateway_login.Base.{
  ℕ, zero, suc, ◌^◌, ◌<◌, ◌≡◌, ◌≢◌, refl, sym, ap, ◌∙◌, [], ◌∷◌, ◌++◌, arith, Text, All, ℤ, pos,
  Bool, pos_part,
}
use gateway_login.Decimal.{itoa, atoi}
use gateway_login.Decimal.Digits.{IsDigit, digits-All}
use gateway_login.Decimal.RoundTrip.{atoi-itoa, itoa-pos}
use gateway_login.RateLimit.{redis_key}

itoa-All : (n : ℕ) → All IsDigit (itoa (pos n))
itoa-All zero = unfold itoa in (omega arith, tt)
itoa-All (suc n) = rw (itoa-pos n) (digits-All (suc n) [] tt)

itoa-injective : (n m : ℕ) → n < 2 ^ 63 → m < 2 ^ 63 → itoa (pos n) ≡ itoa (pos m) → n ≡ m
itoa-injective n m hn hm e =
    let a = atoi-itoa (pos n) hn (cc) in
    let b = atoi-itoa (pos m) hm (cc) in ap (λ (z : ℤ × Bool). pos_part z.0) (sym a ∙ ap atoi e ∙ b)

-- A colon before digits.
no_colon : (k d e : Text) → All IsDigit d → d ≢ k ++ b':' ∷ e
no_colon [] [] e h p = cc
no_colon [] (c ∷ d) e h p = absurd (ground (arith, h, p))
no_colon (c ∷ k) [] e h p = cc
no_colon (c ∷ k) (x ∷ d) e h p = no_colon k d e h.1 (cc)

last_colon :
    (k k' d d' : Text)
    → All IsDigit d
    → All IsDigit d'
    → k ++ b':' ∷ d ≡ k' ++ b':' ∷ d'
    → (k ≡ k') × (d ≡ d')
last_colon [] [] d d' h h' e = (refl, cc)
last_colon [] (c ∷ k') d d' h h' e = absurd (no_colon k' d d' h (cc))
last_colon (c ∷ k) [] d d' h h' e = absurd (no_colon k d' d h' (cc))
last_colon (c ∷ k) (c' ∷ k') d d' h h' e = let (p, q) = last_colon k k' d d' h h' (cc) in (cc, q)

-- Two keys and two buckets below 2 ^ 63 that share a key in Redis are the same.
pub redis_key-injective :
    (k k' : Text) (n n' : ℕ)
    → n < 2 ^ 63
    → n' < 2 ^ 63
    → redis_key k n ≡ redis_key k' n'
    → (k ≡ k') × (n ≡ n')
unfolding redis_key
redis_key-injective k k' n n' h h' e =
    let (p, q) = last_colon k k' (itoa (pos n)) (itoa (pos n')) (itoa-All n) (itoa-All n') (cc) in
    (p, itoa-injective n n' h h' q)
