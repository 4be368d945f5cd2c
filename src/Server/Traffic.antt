-- ===== src/Server/Traffic.antt =====
-- A sequence of requests to the router of internal/server/server.go, in the order in which Redis
-- runs their scripts, against the specification of the limiter of internal/redisx/ratelimit.go.
pub mod Limit
use mathlib.Core.Path.{subst}
use gateway_login.Base.{
  ℕ, ◌+◌, ◌/◌, ◌≤◌, ◌<◌, ◌^◌, ◌≡◌, ◌≢◌, refl, sym, ap, ap₂, ◌∙◌, Bool, true, false, ◌&&◌, none,
  some, List, [], ◌∷◌, ◌++◌, Text, codes, Result, ok, err, if◌then◌else◌, ℤ, pos, pos_part, ltb_ℤ,
  arith, inl, inr, Bool-cases, ◌==◌, text_eq,
}
use gateway_login.ApiKey.{Entry, get_by_hash}
use gateway_login.RateLimit.{Limiter, fine, Verdict, allowed, failed, panic, allow}
use gateway_login.RateLimit.Bound.{is_denied, passed, passed-decide}
use gateway_login.RateLimit.Tracking.{Request, AllInt64, count_in}
use gateway_login.RateLimit.Window.{run, decide, start, run-eq-decide}
use gateway_login.Api.View.{Response, plain, write_err}
use gateway_login.Api.Middleware.{
  Reply, answer, hex, with_entry, api_key_auth, minute, with_verdict, rate_limit,
}
use gateway_login.Server.{
  Config, Deps, Route, healthz, metrics, lost, listing, single, Data, Meets, Libraries, limited,
  protected, serve,
}
use gateway_login.Server.Access.{handled}

-- A request, with what it meets and the tables that it reads.
pub record Arrival : Type 0 where
  pub route : Route
  pub raw : Text
  pub meets : Meets
  pub tables : Data

-- What stands behind a verdict of the limiter.
abbrev pub respond : Verdict → Response → Response
respond (allowed true) r = r
respond (allowed false) r = write_err 429 (codes "rate_limited")
respond (failed e) r = r
respond panic r = record { status = 500; body = plain [] }

abbrev pub respond_all : List Verdict → List Response → List Response
respond_all (v ∷ vs) (r ∷ rs) = respond v r ∷ respond_all vs rs
respond_all [] rs = []
respond_all (v ∷ vs) [] = []

module _ (lib : Libraries) (cfg : Config) (dep : Deps) where
  -- The responses, and the limiter after them.
  unfoldable pub serve_all : List Arrival → Limiter → List Response × Limiter
  serve_all [] l = ([], l)
  serve_all (a ∷ later) l =
      let reply = serve lib cfg dep a.meets a.tables a.route a.raw l in
      let (rs, l') = serve_all later reply.limiter in (reply.response ∷ rs, l')

  -- A request to a route with a handler, by a key that is found, while Redis answers; its clock is
  -- ahead by `skew`.
  pub record IsCounted (skew : ℕ) (a : Arrival) : Type 0 where
    pub entry : Entry
    pub given : a.raw ≢ []
    pub found : get_by_hash a.meets.lookup (hex (lib.sha256 a.raw)) a.tables.api_keys ≡ ok entry
    pub named : entry.id ≢ []
    pub answers : a.meets.redis ≡ fine
    pub clock : a.meets.server ≡ a.meets.now + skew
    pub response : Response
    pub by_handler : handled lib cfg dep a.meets a.tables a.route ≡ some response

  abbrev pub AllCounted : ℕ → List Arrival → Type 0
  AllCounted skew [] = Unit
  AllCounted skew (a ∷ later) = IsCounted skew a × AllCounted skew later

  abbrev pub key_of : {skew : ℕ} {a : Arrival} → IsCounted skew a → Text
  key_of c = codes "apikey:" ++ c.entry.id

  -- The requests as the limiter sees them, and what their handlers answer.
  abbrev pub requests :
      (skew : ℕ) (arrivals : List Arrival) → AllCounted skew arrivals → List Request
  requests skew [] all = []
  requests skew (a ∷ later) (c, all) = (key_of c, a.meets.now) ∷ requests skew later all

  abbrev pub responses :
      (skew : ℕ) (arrivals : List Arrival) → AllCounted skew arrivals → List Response
  responses skew [] all = []
  responses skew (a ∷ later) (c, all) = c.response ∷ responses skew later all

  module _ (skew : ℕ) (on : dep.api ≡ true)
      (used : (dep.redis && ltb_ℤ (pos 0) cfg.api_rate_limit_rpm) ≡ true) where
    judged :
        (v : Verdict) (r : Response) (id : Text) (l : Limiter)
        → ((with_verdict v (λ _. answer r) id l).response ≡ respond v r)
          × ((with_verdict v (λ _. answer r) id l).limiter ≡ l)
    unfolding with_verdict
    judged (allowed true) r id l = (refl, refl)
    judged (allowed false) r id l = (refl, refl)
    judged (failed e) r id l = (refl, refl)
    judged panic r id l = (refl, refl)

    abbrev pub asked : Arrival → Text → Limiter → Verdict × Limiter
    asked a id l =
        allow a.meets.redis a.meets.now a.meets.server (codes "apikey:" ++ id)
          cfg.api_rate_limit_rpm minute l

    -- Behind the lookup of the key.
    limited-asked :
        (a : Arrival) (r : Response) (id : Text) (l : Limiter)
        → id ≢ []
        → ((limited lib cfg dep a.meets a.tables (λ _. answer r) id l).response
            ≡ respond (asked a id l).0 r)
          × ((limited lib cfg dep a.meets a.tables (λ _. answer r) id l).limiter ≡ (asked a id l).1)
    unfolding limited rate_limit
    limited-asked a r [] l named = absurd (named refl)
    limited-asked a r (c ∷ id) l named =
        rw used (judged (asked a (c ∷ id) l).0 r (c ∷ id) (asked a (c ∷ id) l).1)

    protected-asked :
        (a : Arrival) (c : IsCounted skew a) (raw : Text) (r : Response) (l : Limiter)
        → raw ≡ a.raw
        → ((protected lib cfg dep a.meets a.tables raw r l).response
            ≡ respond (asked a c.entry.id l).0 r)
          × ((protected lib cfg dep a.meets a.tables raw r l).limiter ≡ (asked a c.entry.id l).1)
    unfolding protected api_key_auth with_entry
    protected-asked a c [] r l same = absurd (c.given (sym same))
    protected-asked a c (b ∷ raw) r l same =
        rw (same, c.found) (limited-asked a r c.entry.id l c.named)

    -- What a request by a key that is found gives, in terms of the limiter.
    abbrev pub Asks : Arrival → Text → Response → Limiter → Reply → Type 0
    Asks a id r l reply =
        (reply.response ≡ respond (asked a id l).0 r) × (reply.limiter ≡ (asked a id l).1)

    protected-Asks :
        (a : Arrival) (c : IsCounted skew a) (r : Response) (l : Limiter)
        → r ≡ c.response
        → Asks a c.entry.id c.response l (protected lib cfg dep a.meets a.tables a.raw r l)
    protected-Asks a c r l same = rw (← same) (protected-asked a c a.raw r l refl)

    pub serve-Asks :
        (a : Arrival) (c : IsCounted skew a) (l : Limiter)
        → Asks a c.entry.id c.response l (serve lib cfg dep a.meets a.tables a.route a.raw l)
    serve-Asks a c l = go a.route c.by_handler
      where
        go :
            (route : Route)
            → handled lib cfg dep a.meets a.tables route ≡ some c.response
            → Asks a c.entry.id c.response l (serve lib cfg dep a.meets a.tables route a.raw l)
        go healthz h = absurd (cc)
        go metrics h = absurd (cc)
        go (lost page) h = absurd (cc)
        go (listing q) h = unfold serve in simp on (protected-Asks a c _ l (cc h))
        go (single nik) h = unfold serve in simp on (protected-Asks a c _ l (cc h))
