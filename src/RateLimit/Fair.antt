-- ===== src/RateLimit/Fair.antt =====
-- `Allow` of internal/redisx/ratelimit.go where Redis may fail at any call: whom it denies.
use gateway_login.Base.{
  ℕ, ◌/◌, ◌^◌, ◌≤◌, ◌<◌, ◌≡◌, Option, none, some, List, [], ◌∷◌, Text, ℤ, pos_part,
}
use gateway_login.RateLimit.{
  Counter, Counters, find, incremented, with_expiry, Limiter, RedisFault, Verdict, redis_key, allow,
}
use gateway_login.RateLimit.Tracking.{Request, count_in}

-- A call: what Redis gives, the clock of Redis, and the request.
pub record Call : Type 0 where
  pub fault : RedisFault
  pub server : ℕ
  pub key : Text
  pub now : ℕ

-- The calls so far, the last first, as requests.
abbrev pub requests : List Call → List Request
requests [] = []
requests (c ∷ cs) = (c.key, c.now) ∷ requests cs

abbrev counted : Option Counter → ℕ
counted none = 0
counted (some c) = c.count

module _ (w : ℕ) where
  -- No counter is above the number of the requests of its key and its bucket.
  abbrev IsBounded : List Request → Counters → Type 0
  IsBounded past cs =
      (now : ℕ) (key : Text) (t : ℕ) (c : Counter)
      → t < 2 ^ 63
      → find now (redis_key key (t / w)) cs ≡ some c
      → c.count ≤ count_in w key (t / w) past

  module _ (positive : 0 < w) (server : ℕ) (k : Text) (now : ℕ) (fits : now < 2 ^ 63)
      (past : List Request) (cs : Counters) (h : IsBounded past cs) where
    abbrev fresh : Counter
    fresh = with_expiry server w (incremented (find server (redis_key k (now / w)) cs))

module _ (max window : ℤ) where
  -- One call.
  abbrev pub called : Call → Limiter → Verdict × Limiter
  called c l = allow c.fault c.now c.server c.key max window l

  -- The limiter after the calls, the last first.
  unfoldable pub after : List Call → Limiter → Limiter
  after [] l = l
  after (c ∷ cs) l = (called c (after cs l)).1

  abbrev width : ℕ
  width = pos_part window / 1000000
