-- ===== src/Gateway/Moments.antt =====
-- From the VPS to a client at any moment of the life of cmd/sync: what the router of
-- internal/server/server.go answers to GET for one row.
use mathlib.Core.List.{Memᴰ}
use gateway_login.Base.{
  ◌≤◌, ◌≡◌, ◌≢◌, refl, ap, Bool, true, none, some, List, [], Text, codes, if◌then◌else◌, ℤ,
}
use gateway_login.Vps.{KaryawanRow}
use gateway_login.ApiKey.{KeyRow}
use gateway_login.RateLimit.{Limiter}
use gateway_login.Sync.Store.{Db}
use gateway_login.Sync.Run.{watermark_of}
use gateway_login.Sync.Mirror.{IsTable}
use gateway_login.Sync.Mirror.Coverage.{IsCovered}
use gateway_login.Commands.Sync.Lives.{AllClean, Moment, Moment-IsComplete}
use gateway_login.Api.View.{Response, view_body, write_err}
use gateway_login.Api.Middleware.{Reply, hex}
use gateway_login.Server.{Config, Deps, single, Data, Meets, Libraries, serve}
use gateway_login.Server.Access.{
  IsLive, Access, missing, unavailable, invalid, granted, denies, serve-Access,
}
use gateway_login.Gateway.{view_of, handle_get-IsMirrored}

module _ (lib : Libraries) (cfg : Config) (dep : Deps) (m : Meets) (d : Data) where
  -- The answer `r`, or that of the rate limiter, to a key that is not revoked.
  abbrev pub Answers : Text → Limiter → Response → Reply → Type 0
  Answers raw l r reply =
      (k : KeyRow) × IsLive d.api_keys (hex (lib.sha256 raw)) k
      × (reply.response
          ≡ (if denies lib cfg dep m d k.id l then write_err 429 (codes "rate_limited") else r))

  Access-Answers :
      {raw : Text} {l : Limiter} {r : Response} {reply : Reply} (k : KeyRow)
      → Access lib cfg dep m d raw l r reply
      → raw ≢ []
      → m.lookup ≡ none
      → IsLive d.api_keys (hex (lib.sha256 raw)) k
      → Answers raw l r reply
  Access-Answers k (missing empty) given fine live = absurd (given empty)
  Access-Answers k (unavailable e filled fault) given fine live = absurd (cc)
  Access-Answers k (invalid filled found no_row) given fine live = absurd (no_row k live)
  Access-Answers k (granted row filled found here) given fine live = (row, here, refl)

  -- Let cmd/sync be started, run, end or be killed, and be started again, any number of times,
  -- whatever it meets, with passes that overlap, and let cmd/setup be run against the same VPS while
  -- cmd/sync does not run. Let the batch sizes, of the environment of the one and of the
  -- configuration that the other writes, be allowed ones: no LIMIT of an allowed size cuts through
  -- rows of one time. Let NIK_HRIS be a key of the table of the VPS, which stays as it is, and
  -- the mirror be complete up to the watermark at the start. Then at every moment the router
  -- answers a request for a row of the VPS that has a key and is not newer than the watermark, if
  -- the request has an API key that is not revoked, if the API is in place and if both queries
  -- succeed, with the columns of that row, or with 429 where the rate limiter denies the request.
  pub serve-Moment :
      (le : Text → Text → Bool) (table : List KaryawanRow) (Allowed : ℤ → Type 0) (a b : Db)
      (r : KaryawanRow) (raw : Text) (k : KeyRow) (l : Limiter)
      → IsTable table
      → AllClean le table Allowed
      → IsCovered table (watermark_of (codes "karyawan") a) a.karyawan
      → Moment le table Allowed a b
      → Memᴰ r table
      → r.updated_at ≤ watermark_of (codes "karyawan") b
      → r.nik_hris ≢ []
      → dep.api ≡ true
      → raw ≢ []
      → m.lookup ≡ none
      → m.single ≡ none
      → IsLive d.api_keys (hex (lib.sha256 raw)) k
      → d.karyawan ≡ b.karyawan
      → Answers raw l
          (record { status = 200; body = view_body (view_of r) })
          (serve lib cfg dep m d (single r.nik_hris) raw l)
  serve-Moment le table Allowed a b r raw k l keyed clean old moment listed bound given on filled
        fine read live tables =
      let covered = Moment-IsComplete le table Allowed keyed clean moment old in
      let shown = handle_get-IsMirrored b.karyawan r given (covered r listed bound) in
      Access-Answers k
        (serve-Access lib cfg dep m d (single r.nik_hris) raw l _ on
          (ap some (rw (read, tables) shown)))
        filled fine live
