-- ===== src/RateLimit/Guards.antt =====
-- The windows that `Allow` refuses.
use gateway_login.Base.{
  ℕ, ◌/◌, ◌<◌, ◌≡◌, true, arith, Text, codes, Bool-cases, inl, inr, if◌then◌else◌, ℤ, pos, pos_part,
  leb_ℤ, ◌==◌,
}
use gateway_login.RateLimit.{Limiter, RedisFault, failed, panic, allow}

module _ (fault : RedisFault) (now server : ℕ) (key : Text) (max window : ℤ) (l : Limiter) where
  -- A window that is not positive is refused with an error, and a positive one below a millisecond
  -- makes the program panic; neither changes a counter or a metric.
  pub allow_small_window :
      pos_part window < 1000000
      → allow fault now server key max window l ≡ (
        if leb_ℤ window (pos 0) then failed (codes "ratelimit: window must be > 0") else panic,
        l,
      )
  unfolding allow
  allow_small_window small =
      let none_left : (pos_part window / 1000000 == 0) ≡ true = ground arith in
      elim (Bool-cases (leb_ℤ window (pos 0))) [
        | inl refused ↦ rw refused
        | inr tiny ↦ rw (tiny, none_left)
      ]
