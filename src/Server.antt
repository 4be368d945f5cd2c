-- ===== src/Server.antt =====
-- `Router` of internal/server/server.go and `Routes` of internal/api/handlers.go: which middlewares
-- stand before which handler.
pub mod Access
pub mod Traffic
pub mod Audit
pub mod Samples
mod Tests
mod TrafficTests
mod AuditTests
use gateway_login.Base.{
  ℕ, Bool, true, ◌&&◌, Option, List, [], Text, codes, if◌then◌else◌, ℤ, pos, ltb_ℤ,
}
use gateway_login.Postgres.{Postgres}
use gateway_login.Karyawan.Table.{Record}
use gateway_login.Karyawan.Query.{Faults}
use gateway_login.ApiKey.{KeyRow}
use gateway_login.RateLimit.{RedisFault, Limiter}
use gateway_login.Api.View.{Response, plain}
use gateway_login.Api.Handlers.{Query, handle_list, handle_get}
use gateway_login.Api.Middleware.{Reply, Handler, answer, api_key_auth, rate_limit}

pub record Config : Type 0 where
  pub addr : Text
  pub api_rate_limit_rpm : ℤ

-- Which of the dependencies are not nil.
pub record Deps : Type 0 where
  pub api : Bool
  pub redis : Bool

-- The route that a request takes, with what it carries; `lost` is a path or a method that has none.
pub data Route : Type 0 where
  healthz metrics : Route
  listing : Query → Route
  single : Text → Route
  lost : Response → Route

-- The tables that a request reads.
pub record Data : Type 0 where
  pub karyawan : List Record
  pub api_keys : List KeyRow

-- What a request meets: the errors of its calls, and both clocks.
pub record Meets : Type 0 where
  pub lookup : Option Text
  pub redis : RedisFault
  pub listing : Faults
  pub single : Option Text
  pub now : ℕ
  pub server : ℕ

-- The libraries: the database, the hash function, and the page of the metrics.
pub record Libraries : Type 0 where
  pub pg : Postgres
  pub sha256 : Text → Text
  pub metrics_page : Limiter → Text

-- The router's answer to a path that it does not know.
abbrev pub not_routed : Response
not_routed = record { status = 404; body = plain (codes "404 page not found\n") }

module _ (lib : Libraries) (cfg : Config) (dep : Deps) (m : Meets) (d : Data) where
  -- The rate limit is in use only with Redis and a positive number.
  unfoldable pub limited : Handler → Handler
  limited next =
      if dep.redis && ltb_ℤ (pos 0) cfg.api_rate_limit_rpm
      then rate_limit m.redis m.now m.server cfg.api_rate_limit_rpm next
      else next

  -- A handler behind the middlewares of the group.
  unfoldable pub protected : Text → Response → Limiter → Reply
  protected raw response =
      api_key_auth lib.sha256 m.lookup d.api_keys raw (limited (λ id. answer response))

  -- The answer to a request with the header X-API-Key `raw`.
  unfoldable pub serve : Route → Text → Limiter → Reply
  serve healthz raw l = answer (record { status = 200; body = plain (codes "ok") }) l
  serve metrics raw l = answer (record { status = 200; body = plain (lib.metrics_page l) }) l
  serve (lost page) raw l = answer page l
  serve (listing q) raw l =
      if dep.api
      then protected raw (handle_list lib.pg m.listing d.karyawan q) l
      else answer not_routed l
  serve (single nik) raw l =
      if dep.api then protected raw (handle_get m.single d.karyawan nik) l else answer not_routed l
