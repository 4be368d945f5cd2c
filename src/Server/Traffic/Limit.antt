-- ===== src/Server/Traffic/Limit.antt =====
-- The rate limit of the API over a sequence of requests: internal/server/server.go with
-- internal/redisx/ratelimit.go.
use gateway_login.Base.{
  ℕ, ◌+◌, ◌/◌, ◌≤◌, ◌≡◌, refl, ap, ap₂, ◌∙◌, true, false, ◌&&◌, List, [], ◌∷◌, ◌++◌, Text, codes,
  if◌then◌else◌, pos, pos_part, ltb_ℤ, arith, inl, inr, Bool-cases, ◌==◌, text_eq,
}
use gateway_login.RateLimit.{Limiter, fine, Verdict, allowed, failed, panic, allow}
use gateway_login.RateLimit.Bound.{is_denied, passed, passed-decide}
use gateway_login.RateLimit.Tracking.{Request, AllInt64}
use gateway_login.RateLimit.Window.{run, decide, start, run-eq-decide}
use gateway_login.Api.View.{Response, write_err}
use gateway_login.Api.Middleware.{minute}
use gateway_login.Server.{Config, Deps, Libraries}
use gateway_login.Server.Traffic.{
  Arrival, respond, respond_all, serve_all, AllCounted, key_of, requests, responses, asked,
  serve-Asks,
}

-- The answers other than 429 to the requests of a key in a minute.
unfoldable pub answered : Text → ℕ → List Request → List Response → ℕ
answered key bucket [] answers = 0
answered key bucket (q ∷ qs) [] = 0
answered key bucket ((k, t) ∷ qs) (r ∷ rs) =
    (if text_eq k key && t / 60000 == bucket then (if r.status == 429 then 0 else 1) else 0)
    + answered key bucket qs rs

one_answer :
    (v : Verdict) (r : Response)
    → (if (respond v r).status == 429 then 0 else 1) ≤ (if is_denied v then 0 else 1)
unfolding write_err
one_answer (allowed true) r = ground arith
one_answer (allowed false) r = omega arith
one_answer (failed e) r = ground arith
one_answer panic r = omega arith

answered-le-passed :
    (key : Text) (bucket : ℕ) (qs : List Request) (vs : List Verdict) (rs : List Response)
    → answered key bucket qs (respond_all vs rs) ≤ passed 60000 key bucket qs vs
unfolding answered passed
answered-le-passed key bucket [] vs rs = omega arith
answered-le-passed key bucket (q ∷ qs) [] rs = omega arith
answered-le-passed key bucket (q ∷ qs) (v ∷ vs) [] = omega arith
answered-le-passed key bucket ((k, t) ∷ qs) (v ∷ vs) (r ∷ rs) =
    elim (Bool-cases (text_eq k key && t / 60000 == bucket)) [
      | inl same ↦ rw same (omega (arith, one_answer v r, answered-le-passed key bucket qs vs rs))
      | inr other ↦ rw other (omega (arith, answered-le-passed key bucket qs vs rs))
    ]

module _ (lib : Libraries) (cfg : Config) (dep : Deps) where
  module _ (skew : ℕ) (on : dep.api ≡ true)
      (used : (dep.redis && ltb_ℤ (pos 0) cfg.api_rate_limit_rpm) ≡ true) where
    -- One step of the limiter's own run.
    serve_all-run :
        (arrivals : List Arrival) (all : AllCounted lib cfg dep skew arrivals) (l : Limiter)
        → (serve_all lib cfg dep arrivals l).0
          ≡ respond_all
              (run skew cfg.api_rate_limit_rpm minute (requests lib cfg dep skew arrivals all) l)
              (responses lib cfg dep skew arrivals all)
    unfolding serve_all run
    serve_all-run [] all l = refl
    serve_all-run (a ∷ later) (c, all) l =
        let (answered, left) = serve-Asks lib cfg dep skew on used a c l in
        let same : asked lib cfg dep skew on used a c.entry.id l
            ≡ allow fine a.meets.now (a.meets.now + skew) (key_of lib cfg dep c)
                cfg.api_rate_limit_rpm minute l =
          rw (c.answers, c.clock) refl in
        ap₂ ◌∷◌ (answered ∙ ap (λ (v : Verdict × Limiter). respond v.0 c.response) same) (
          ap (λ k. (serve_all lib cfg dep later k).0)
            (left ∙ ap (λ (v : Verdict × Limiter). v.1) same)
          ∙ serve_all-run later all _)

    -- Let the API be in place with Redis and a positive limit, and let requests to routes with a
    -- handler come, each with a key that is found and has an id, at times below 2 ^ 63, while Redis
    -- answers with a clock ahead by a constant, from empty counters, whatever the keys and the
    -- order. Each is answered by its handler or with 429, as the specification of the limiter decides: by its
    -- handler exactly if it and those before it with its key and in its minute are at most the
    -- configured number.
    pub serve_all-decide :
        (arrivals : List Arrival) (all : AllCounted lib cfg dep skew arrivals)
        → AllInt64 (requests lib cfg dep skew arrivals all)
        → (serve_all lib cfg dep arrivals start).0
          ≡ respond_all
              (decide 60000 cfg.api_rate_limit_rpm [] (requests lib cfg dep skew arrivals all))
              (responses lib cfg dep skew arrivals all)
    serve_all-decide arrivals all fits =
        serve_all-run arrivals all start
        ∙ ap (λ vs. respond_all vs (responses lib cfg dep skew arrivals all))
            (run-eq-decide skew cfg.api_rate_limit_rpm minute
              (requests lib cfg dep skew arrivals all) (omega arith) fits)

    -- Let the API be in place with Redis and a positive limit, and let requests to routes with a
    -- handler come, each with a key that is found and has an id, at times below 2 ^ 63, while Redis
    -- answers with a clock ahead by a constant, from empty counters. Then in each minute a key gets at most the
    -- configured number of answers other than 429.
    pub answered-serve_all :
        (arrivals : List Arrival) (all : AllCounted lib cfg dep skew arrivals) (id : Text)
        (bucket : ℕ)
        → AllInt64 (requests lib cfg dep skew arrivals all)
        → answered
            (codes "apikey:" ++ id)
            bucket
            (requests lib cfg dep skew arrivals all)
            (serve_all lib cfg dep arrivals start).0
          ≤ pos_part cfg.api_rate_limit_rpm
    answered-serve_all arrivals all id bucket fits = rw (serve_all-decide arrivals all fits) (
        omega (
          arith,
          answered-le-passed (codes "apikey:" ++ id) bucket (requests lib cfg dep skew arrivals all)
              (decide 60000 cfg.api_rate_limit_rpm [] (requests lib cfg dep skew arrivals all))
              (responses lib cfg dep skew arrivals all),
          passed-decide 60000 cfg.api_rate_limit_rpm (codes "apikey:" ++ id) bucket []
              (requests lib cfg dep skew arrivals all),
        ))
