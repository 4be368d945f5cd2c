-- ===== src/RateLimit/Tests.antt =====
-- The limiter on concrete requests.
use gateway_login.Base.{ℕ, ◌≡◌, refl, true, false, List, [], ◌∷◌, text_eq, codes, arith, pos}
use gateway_login.RateLimit.{lost_reply, fine, allowed, panic, allow}
use gateway_login.RateLimit.Keys.{redis_key-injective}
use gateway_login.RateLimit.Window.{run, decide, start, run-eq-decide}
use gateway_login.RateLimit.Tracking.{Request, count_in}
use gateway_login.RateLimit.Fair.{Call}
use gateway_login.RateLimit.Guards.{allow_small_window}

-- Two keys in one minute, then the first in the next one.
abbrev requests : List Request
requests =
    (codes "a", 60001)
    ∷ (codes "a", 60002)
    ∷ (codes "b", 60003)
    ∷ (codes "a", 119999)
    ∷ (codes "a", 120000)
    ∷ []

run-eq-decide_example :
    run 3 (pos 2) (pos 60000000000) requests start ≡ decide 60000 (pos 2) [] requests
run-eq-decide_example =
    run-eq-decide 3 (pos 2) (pos 60000000000) requests (omega arith)
      (omega arith, (omega arith, (omega arith, (omega arith, (omega arith, tt)))))

decided :
    decide 60000 (pos 2) [] requests
    ≡ allowed true ∷ allowed true ∷ allowed true ∷ allowed false ∷ allowed true ∷ []
unfolding decide count_in text_eq
decided = refl

abbrev bucket : ℕ
bucket = 7

redis_key-injective_example : (codes "a" ≡ codes "a") × (bucket ≡ bucket)
redis_key-injective_example =
    redis_key-injective (codes "a") (codes "a") bucket bucket (omega arith) (omega arith) refl

allow_small_window_test :
    allow fine 60001 60004 (codes "a") (pos 5) (pos 999999) start ≡ (panic, start)
allow_small_window_test =
    allow_small_window fine 60001 60004 (codes "a") (pos 5) (pos 999999) start (omega arith)

-- The reply of the first call is lost, but it counts.
abbrev lost : Call
lost = record { fault = lost_reply (codes "EOF"); server = 60004; key = codes "a"; now = 60001 }

abbrev second : Call
second = record { fault = fine; server = 60005; key = codes "a"; now = 60002 }
