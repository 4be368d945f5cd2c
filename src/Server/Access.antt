-- ===== src/Server/Access.antt =====
-- The middlewares of internal/api/middleware.go as internal/server/server.go puts them: who gets
-- through to the handlers, and what stops a request.
use mathlib.Core.List.{Memᴰ}
use mathlib.Core.Path.{subst}
use gateway_login.Base.{
  ℕ, ◌≡◌, ◌≢◌, refl, sym, Bool, true, false, ◌&&◌, not, ◌/◌, Option, none, some, List, [], ◌∷◌,
  ◌++◌, Text, text_eq, codes, is_empty, Result, ok, err, inl, inr, Bool-cases, if◌then◌else◌, pos,
  ltb_ℤ,
}
use gateway_login.ApiKey.{
  error_text, KeyRow, Entry, KeyError, not_found, failed, scanned, get_by_hash,
}
use gateway_login.ApiKey.Laws.{Answers, get_by_hash-Answers}
use gateway_login.RateLimit
use gateway_login.RateLimit.{
  Counters, exceeds, judge, incr_expire, redis_key, RedisFault, fine, script_error, lost_reply,
  odd_reply, Verdict, allowed, panic, Limiter, allow,
}
use gateway_login.Api.View.{Response, write_err}
use gateway_login.Api.Handlers.{handle_list, handle_get}
use gateway_login.Api.Middleware.{
  Reply, Handler, answer, hex, is_not_found_err, with_entry, api_key_auth, with_verdict, rate_limit,
}
use gateway_login.Server.{
  Config, Deps, Route, healthz, metrics, listing, single, lost, Data, Meets, Libraries, limited,
  protected, serve,
}

-- A row that authenticates a hash.
pub record IsLive (keys : List KeyRow) (hash : Text) (r : KeyRow) : Type 0 where
  pub listed : Memᴰ r keys
  pub same_hash : r.key_hash ≡ hash
  pub unrevoked : r.revoked ≡ false

abbrev pub answers : RedisFault → Bool
answers fine = true
answers (script_error e) = false
answers (lost_reply e) = false
answers (odd_reply e) = false

module _ (lib : Libraries) (cfg : Config) (dep : Deps) (m : Meets) (d : Data) where
  -- What stands behind the authentication.
  abbrev pub answered : Response → Handler
  answered r = limited lib cfg dep m d (λ id. answer r)

  -- The count that Redis gives for a key's id in the minute of the request.
  abbrev pub count_of : Text → Limiter → ℕ
  count_of id l =
      (incr_expire m.server (redis_key (codes "apikey:" ++ id) (m.now / 60000)) 60000 l.counters).0

  -- Redis is in use, it answers, and its count is over the number of the configuration.
  abbrev pub denies : Text → Limiter → Bool
  denies id l =
      (dep.redis && ltb_ℤ (pos 0) cfg.api_rate_limit_rpm)
      && not (is_empty id)
      && answers m.redis
      && ltb_ℤ cfg.api_rate_limit_rpm (pos (count_of id l))

  judged :
      (fault : RedisFault) (count : ℕ) (cs : Counters) (r : Response) (id : Text) (l l' : Limiter)
      → (let (v, l') = judge fault cfg.api_rate_limit_rpm count cs l in
          with_verdict v (λ _. answer r) id l').response
        ≡ (if answers fault && ltb_ℤ cfg.api_rate_limit_rpm (pos count)
            then write_err 429 (codes "rate_limited")
            else r)
  unfolding judge with_verdict
  judged (script_error e) count cs r id l l' = refl
  judged (lost_reply e) count cs r id l l' = refl
  judged (odd_reply e) count cs r id l l' = refl
  judged fine count cs r id l l' = elim (Bool-cases (exceeds count cfg.api_rate_limit_rpm)) [
    | inl over ↦ rw over
    | inr within ↦ rw within
  ]

  rate_limit-response :
      (r : Response) (id : Text) (l : Limiter)
      → (rate_limit m.redis m.now m.server cfg.api_rate_limit_rpm (λ _. answer r) id l).response ≡ (
          if not (is_empty id)
            && answers m.redis
            && ltb_ℤ cfg.api_rate_limit_rpm (pos (count_of id l))
          then write_err 429 (codes "rate_limited")
          else r)
  unfolding rate_limit allow
  rate_limit-response r [] l = refl
  rate_limit-response r (c ∷ id) l = judged m.redis _ _ r (c ∷ id) l l

  -- Behind the authentication the handler's answer is given, whatever Redis does, but when Redis
  -- is in use, answers, and counts more requests of the key than the configured number: then the
  -- answer is 429.
  pub response-answered :
      (r : Response) (id : Text) (l : Limiter)
      → (answered r id l).response
        ≡ (if denies id l then write_err 429 (codes "rate_limited") else r)
  unfolding limited
  response-answered r id l = elim (Bool-cases (dep.redis && ltb_ℤ (pos 0) cfg.api_rate_limit_rpm)) [
    | inl used ↦ rw used (rate_limit-response r id l)
    | inr unused ↦ rw unused
  ]

  marks-rate_limit :
      (r : Response) (id : Text) (l : Limiter)
      → (rate_limit m.redis m.now m.server cfg.api_rate_limit_rpm (λ _. answer r) id l).marks ≡ []
  unfolding rate_limit with_verdict
  marks-rate_limit r [] l = refl
  marks-rate_limit r (c ∷ id) l = verdict (allow _ _ _ _ _ _ _).0 _
    where
      verdict :
          (v : Verdict) (l' : Limiter) → (with_verdict v (λ _. answer r) (c ∷ id) l').marks ≡ []
      verdict (allowed true) l' = refl
      verdict (allowed false) l' = refl
      verdict (RateLimit.failed e) l' = refl
      verdict panic l' = refl

  marks-answered : (r : Response) (id : Text) (l : Limiter) → (answered r id l).marks ≡ []
  unfolding limited
  marks-answered r id l = elim (Bool-cases (dep.redis && ltb_ℤ (pos 0) cfg.api_rate_limit_rpm)) [
    | inl used ↦ rw used (marks-rate_limit r id l)
    | inr unused ↦ rw unused
  ]

  -- What a handler answers to the route.
  abbrev pub handled : Route → Option Response
  handled (listing q) = some (handle_list lib.pg m.listing d.karyawan q)
  handled (single nik) = some (handle_get m.single d.karyawan nik)
  handled healthz = none
  handled metrics = none
  handled (lost page) = none

  -- The ways of a request to a route with a handler.
  pub data Access (raw : Text) (l : Limiter) (r : Response) : Reply → Type 0 where
    missing : raw ≡ [] → Access raw l r (answer (write_err 401 (codes "missing_api_key")) l)
    unavailable :
        (e : Text)
        → raw ≢ []
        → m.lookup ≡ some e
        → Access raw l r (answer (write_err 503 (codes "auth_backend_unavailable")) l)
    invalid :
        raw ≢ []
        → m.lookup ≡ none
        → ((k : KeyRow) → ¬ IsLive d.api_keys (hex (lib.sha256 raw)) k)
        → Access raw l r (answer (write_err 401 (codes "invalid_api_key")) l)
    granted :
        (k : KeyRow)
        → raw ≢ []
        → m.lookup ≡ none
        → IsLive d.api_keys (hex (lib.sha256 raw)) k
        → Access raw l r (record {
          response = if denies k.id l then write_err 429 (codes "rate_limited") else r;
          limiter = (answered r k.id l).limiter;
          marks = k.id ∷ [];
        })

  granted_reply :
      (k : KeyRow) (r : Response) (l : Limiter)
      → record (answered r k.id l) { marks = k.id ∷ (answered r k.id l).marks } ≡ record {
        response = if denies k.id l then write_err 429 (codes "rate_limited") else r;
        limiter = (answered r k.id l).limiter;
        marks = k.id ∷ [];
      }
  granted_reply k r l = λ i. record {
    response = response-answered r k.id l i;
    limiter = (answered r k.id l).limiter;
    marks = k.id ∷ marks-answered r k.id l i;
  }

  -- The result of a lookup, and what it says of the keys.
  looked_up :
      (raw : Text) (r : Response) (l : Limiter) (e : Result KeyError Entry)
      → raw ≢ []
      → m.lookup ≡ none
      → Answers (hex (lib.sha256 raw)) d.api_keys e
      → Access raw l r (with_entry e (answered r) l)
  unfolding with_entry is_not_found_err error_text scanned text_eq
  looked_up raw r l (err not_found) given fine_lookup says =
      invalid given fine_lookup (λ k live. cc (says k live.listed live.same_hash, live.unrevoked))
  looked_up raw r l (err (failed _)) given fine_lookup says = elim says [ ]
  looked_up raw r l (ok entry) given fine_lookup (k, listed, same_hash, live, same) = rw same (
      subst (Access raw l r) (sym (granted_reply k r l)) (
        granted k given fine_lookup
          (record { listed = listed; same_hash = same_hash; unrevoked = live })))

  with_entry-Access :
      (raw : Text) (r : Response) (l : Limiter) (fault : Option Text)
      → raw ≢ []
      → m.lookup ≡ fault
      → Access raw l r
          (with_entry (get_by_hash fault (hex (lib.sha256 raw)) d.api_keys) (answered r) l)
  unfolding with_entry is_not_found_err get_by_hash error_text text_eq
  with_entry-Access raw r l (some e) given h = unavailable e given h
  with_entry-Access raw r l none given h =
      looked_up raw r l _ given h (get_by_hash-Answers (hex (lib.sha256 raw)) d.api_keys)

  protected-Access :
      (raw : Text) (r : Response) (l : Limiter) → Access raw l r (protected lib cfg dep m d raw r l)
  unfolding protected api_key_auth
  protected-Access [] r l = missing refl
  protected-Access (c ∷ s) r l =
      subst (λ f. Access (c ∷ s) l r (with_entry (get_by_hash f _ _) (answered r) l)) refl
        (with_entry-Access (c ∷ s) r l m.lookup (λ e. absurd (cc)) refl)

  -- With the API in place, a request to a route with a handler is answered 401 without a key, 503
  -- if the keys cannot be read, 401 if no row that is not revoked has the key's hash, and
  -- otherwise by the handler or, where the rate limiter denies it, with 429; only then is the
  -- limiter asked, and only then is the use of a key recorded, that of the row.
  pub serve-Access :
      (route : Route) (raw : Text) (l : Limiter) (r : Response)
      → dep.api ≡ true
      → handled route ≡ some r
      → Access raw l r (serve lib cfg dep m d route raw l)
  unfolding serve
  serve-Access (listing q) raw l r on h = simp on (
      subst
        (λ x.
          Access raw l x
            (protected lib cfg dep m d raw (handle_list lib.pg m.listing d.karyawan q) l))
        {x = handle_list lib.pg m.listing d.karyawan q} (cc h) (protected-Access raw _ l))
  serve-Access (single nik) raw l r on h = simp on (
      subst
        (λ x. Access raw l x (protected lib cfg dep m d raw (handle_get m.single d.karyawan nik) l))
        {x = handle_get m.single d.karyawan nik} (cc h) (protected-Access raw _ l))
  serve-Access healthz raw l r on h = absurd (cc)
  serve-Access metrics raw l r on h = absurd (cc)
  serve-Access (lost page) raw l r on h = absurd (cc)
