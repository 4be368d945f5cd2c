-- ===== src/RateLimit/Window.antt =====
-- `Allow` of internal/redisx/ratelimit.go over a sequence of requests, against its specification.
use mathlib.Core.Path.{subst}
use gateway_login.Base.{
  ℕ, suc, ◌+◌, ◌/◌, ◌<◌, ◌≡◌, refl, sym, ap, ap₂, ◌∙◌, true, false, List, [], ◌∷◌, Text, inl, inr,
  arith, Bool-cases, if◌then◌else◌, ◌==◌, ℤ, pos, pos_part, leb_ℤ, ltb_ℤ,
}
use gateway_login.RateLimit.{
  Counters, find, put, incr_expire, Limiter, fine, Verdict, allowed, redis_key, exceeds, judge,
  allow,
}
use gateway_login.RateLimit.Tracking.{
  Request, count_in, AllInt64, Tracked, Tracks, next_counter, next-IsLive, counted_here,
  Tracks-step,
}

-- The limiter over a sequence of requests, Redis answering each; its clock is ahead by `skew`.
unfoldable pub run : ℕ → ℤ → ℤ → List Request → Limiter → List Verdict
run skew max window [] l = []
run skew max window ((key, now) ∷ rs) l =
    let (v, l') = allow fine now (now + skew) key max window l in v ∷ run skew max window rs l'

-- What the specification decides, given the requests before.
unfoldable pub decide : ℕ → ℤ → List Request → List Request → List Verdict
decide w max past [] = []
decide w max past ((key, now) ∷ rs) =
    allowed (if ltb_ℤ max (pos (suc (count_in w key (now / w) past))) then false else true)
    ∷ decide w max ((key, now) ∷ past) rs

module _ (w skew : ℕ) where
  module _ (pos_w : 0 < w) where
    -- One call of the limiter, from counters that are in step.
    module _ (max window : ℤ) (millis : pos_part window / 1000000 ≡ w) where
      abbrev verdict : Text → ℕ → List Request → Verdict
      verdict key now past =
          allowed (if ltb_ℤ max (pos (suc (count_in w key (now / w) past))) then false else true)

      window_positive : leb_ℤ window (pos 0) ≡ false
      window_positive = ground arith

      judge-fine :
          (count : ℕ) (cs : Counters) (l : Limiter)
          → ((judge fine max count cs l).0 ≡ allowed (if exceeds count max then false else true))
            × ((judge fine max count cs l).1.counters ≡ cs)
      unfolding judge
      judge-fine count cs l = elim (Bool-cases (exceeds count max)) [
        | inl over ↦ rw over (refl, refl)
        | inr within ↦ rw within (refl, refl)
      ]

      allow_script :
          (key : Text) (now : ℕ) (l : Limiter)
          → allow fine now (now + skew) key max window l ≡ (
              let c =
                next_counter w skew pos_w now
                  (find (now + skew) (redis_key key (now / w)) l.counters) in
              judge fine max c.count (put (redis_key key (now / w)) c l.counters) l)
      unfolding allow next_counter incr_expire
      allow_script key now l =
          let nonzero : (w == 0) ≡ false = ground arith in rw (window_positive, millis, nonzero)

      allow-step :
          (key : Text) (now : ℕ) (past : List Request) (l : Limiter)
          → Tracked w skew key now past l.counters
          → ((allow fine now (now + skew) key max window l).0 ≡ verdict key now past)
            × ((allow fine now (now + skew) key max window l).1.counters
                ≡ put
                    (redis_key key (now / w))
                    (next_counter w skew pos_w now
                      (find (now + skew) (redis_key key (now / w)) l.counters))
                    l.counters)
      allow-step key now past l h =
          let c =
            next_counter w skew pos_w now
              (find (now + skew) (redis_key key (now / w)) l.counters) in
          let live = next-IsLive w skew pos_w key now past l.counters h in
          let (v, kept) = judge-fine c.count (put (redis_key key (now / w)) c l.counters) l in
          rw (allow_script key now l) (
            v
                ∙ ap (λ n. allowed (if exceeds n max then false else true))
                    (live.counted ∙ counted_here w skew pos_w key now past),
            kept,
          )

      run-decide :
          (past rs : List Request) (l : Limiter)
          → Tracks w skew past l.counters
          → AllInt64 rs
          → run skew max window rs l ≡ decide w max past rs
      unfolding run decide
      run-decide past [] l h fits = refl
      run-decide past ((key, now) ∷ rs) l h (fit, fits) =
          let (v, kept) = allow-step key now past l (h key now fit) in
          ap₂ ◌∷◌ v (
            run-decide ((key, now) ∷ past) rs _
              (subst (Tracks w skew ((key, now) ∷ past)) (sym kept)
                (Tracks-step w skew pos_w key now past l.counters fit h))
              fits)

abbrev pub start : Limiter
start = record { counters = []; script_errors = 0; reply_errors = 0; denied = 0 }

Tracks-start : (w skew : ℕ) → Tracks w skew [] []
unfolding find count_in
Tracks-start w skew key t fits = inl (refl, refl)

-- From empty counters, with a window of at least a millisecond, Redis answering with a clock ahead
-- by a constant, and times below 2 ^ 63, any sequence of requests, of whatever keys and in
-- whatever order, is judged as the specification does: a request is allowed exactly if it and
-- those before it with its key and its bucket are at most `max`.
pub run-eq-decide :
    (skew : ℕ) (max window : ℤ) (rs : List Request)
    → 0 < pos_part window / 1000000
    → AllInt64 rs
    → run skew max window rs start ≡ decide (pos_part window / 1000000) max [] rs
run-eq-decide skew max window rs positive fits =
    run-decide (pos_part window / 1000000) skew positive max window refl [] rs start
      (Tracks-start _ skew) fits
