-- ===== src/RateLimit.antt =====
-- internal/redisx/ratelimit.go: the fixed-window limiter `Allow`, and what its script does in Redis.
pub mod Keys
pub mod Tracking
pub mod Window
pub mod Bound
pub mod Guards
pub mod Fair
mod Tests
use gateway_login.Base.{
  ℕ, suc, ◌+◌, ◌*◌, ◌/◌, ◌≡◌, Bool, true, false, Option, none, some, List, [], ◌∷◌, ◌++◌, Text,
  text_eq, codes, if◌then◌else◌, ltb, leb, ◌==◌, ℤ, pos, negsuc, pos_part, leb_ℤ, ltb_ℤ,
}
use gateway_login.Decimal.{itoa}

-- A counter in Redis, and the server's time in milliseconds at which it expires, if it does.
pub record Counter : Type 0 where
  pub count : ℕ
  pub expires : Option ℕ

abbrev pub Counters : Type 0
Counters = List (Text × Counter)

abbrev expired : ℕ → Option ℕ → Bool
expired now none = false
expired now (some at) = leb at now

-- The counter under a key that has not expired.
abbrev alive : ℕ → Counter → Option Counter
alive now c = if expired now c.expires then none else some c

unfoldable pub find : ℕ → Text → Counters → Option Counter
find now key [] = none
find now key ((k, c) ∷ cs) = if text_eq k key then alive now c else find now key cs

unfoldable pub put : Text → Counter → Counters → Counters
put key c [] = (key, c) ∷ []
put key c ((k, d) ∷ cs) =
    let rest = put key c cs in if text_eq k key then (k, c) ∷ cs else (k, d) ∷ rest

-- INCR: a missing key counts from 0, and has no expiry; an existing one keeps its own.
abbrev incremented : Option Counter → Counter
incremented none = record { count = 1; expires = none }
incremented (some c) = record c { count = suc c.count }

-- The script: INCR, and PEXPIRE if the count is 1.
abbrev with_expiry : ℕ → ℕ → Counter → Counter
with_expiry now ttl c = if c.count == 1 then record c { expires = some (now + ttl) } else c

unfoldable pub incr_expire : ℕ → Text → ℕ → Counters → ℕ × Counters
incr_expire now key ttl cs =
    let c = with_expiry now ttl (incremented (find now key cs)) in (c.count, put key c cs)

-- The counters of Redis, and the three metrics of the program.
pub record Limiter : Type 0 where
  pub counters : Counters
  pub script_errors : ℕ
  pub reply_errors : ℕ
  pub denied : ℕ

-- What a call of the script may give instead of a count: an error before the script has run, an
-- error after it has, as a timeout or a connection that is lost may give, or a reply that is no
-- count.
pub data RedisFault : Type 0 where
  fine : RedisFault
  script_error lost_reply odd_reply : Text → RedisFault

pub data Verdict : Type 0 where
  allowed : Bool → Verdict
  failed : Text → Verdict
  -- integer division by zero
  panic : Verdict

-- fmt.Sprintf("rl:%s:%d", key, bucket)
unfoldable pub redis_key : Text → ℕ → Text
unfolding itoa
redis_key key bucket = codes "rl:" ++ key ++ b':' ∷ itoa (pos bucket)

-- count > int64(max)
abbrev pub exceeds : ℕ → ℤ → Bool
exceeds count max = ltb_ℤ max (pos count)

-- The answer of the script, and what the limiter makes of it.
unfoldable pub judge : RedisFault → ℤ → ℕ → Counters → Limiter → Verdict × Limiter
judge (script_error e) max count cs l = (failed e, record l { script_errors = l.script_errors + 1 })
judge (lost_reply e) max count cs l =
    (failed e, record l { counters = cs; script_errors = l.script_errors + 1 })
judge (odd_reply t) max count cs l = (
  failed (codes "ratelimit: unexpected redis reply type " ++ t),
  record l { counters = cs; reply_errors = l.reply_errors + 1 },
)
judge fine max count cs l =
    if exceeds count max
    then (allowed false, record l { counters = cs; denied = l.denied + 1 })
    else (allowed true, record l { counters = cs })

-- `now` is the program's clock and `server` that of Redis, in milliseconds; `window` is in
-- nanoseconds.
unfoldable pub allow : RedisFault → ℕ → ℕ → Text → ℤ → ℤ → Limiter → Verdict × Limiter
allow fault now server key max window l =
    let millis = pos_part window / 1000000 in
    if leb_ℤ window (pos 0)
    then (failed (codes "ratelimit: window must be > 0"), l)
    else if millis == 0
    then (panic, l)
    else (let (count, cs) = incr_expire server (redis_key key (now / millis)) millis l.counters in
        judge fault max count cs l)
