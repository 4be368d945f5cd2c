-- ===== src/RateLimit/Tracking.antt =====
-- How the counters of Redis keep in step with the requests so far, for the limiter of
-- internal/redisx/ratelimit.go.
use gateway_login.Base.{
  ℕ, suc, ◌+◌, ◌*◌, ◌/◌, ◌^◌, ◌≤◌, ◌<◌, ◌≡◌, refl, sym, ap₂, ◌∙◌, true, false, ◌&&◌, Option, none,
  some, List, [], ◌∷◌, Text, text_eq, text_eq_iff, text_eq_refl, ◌⊎◌, inl, inr, arith, Bool-cases,
  if◌then◌else◌, ◌==◌, ==_iff,
}
use gateway_login.RateLimit.{
  Counter, Counters, alive, find, put, incremented, with_expiry, redis_key,
}
use gateway_login.RateLimit.Keys.{redis_key-injective}

-- A request: its key, and the program's clock in milliseconds.
abbrev pub Request : Type 0
Request = Text × ℕ

-- How many of the requests have this key and this bucket.
unfoldable pub count_in : ℕ → Text → ℕ → List Request → ℕ
count_in w key bucket [] = 0
count_in w key bucket ((k, t) ∷ rs) =
    (if text_eq k key && t / w == bucket then 1 else 0) + count_in w key bucket rs

-- The clock in milliseconds is a 64-bit value.
abbrev pub AllInt64 : List Request → Type 0
AllInt64 [] = Unit
AllInt64 ((k, t) ∷ rs) = (t < 2 ^ 63) × AllInt64 rs

pub find-put :
    (now : ℕ) (key : Text) (c : Counter) (cs : Counters) (q : Text)
    → find now q (put key c cs) ≡ (if text_eq key q then alive now c else find now q cs)
unfolding find put
find-put now key c [] q = refl
find-put now key c ((k, d) ∷ cs) q =
    ground (arith, find-put now key c cs q, text_eq_iff k key, text_eq_iff key q, text_eq_iff k q)

module _ (w skew : ℕ) where
  -- The counter under a key of Redis is that of the requests so far, and outlives their window.
  pub record IsLive (key : Text) (t : ℕ) (past : List Request) (c : Counter) : Type 0 where
    pub counted : c.count ≡ count_in w key (t / w) past
    pub positive : 0 < c.count
    pub expiry : ℕ
    pub expires : c.expires ≡ some expiry
    pub outlives : (t / w + 1) * w + skew ≤ expiry

  abbrev pub Tracked : Text → ℕ → List Request → Counters → Type 0
  Tracked key t past cs =
      ((find (t + skew) (redis_key key (t / w)) cs ≡ none) × (count_in w key (t / w) past ≡ 0))
      ⊎ ((c : Counter) × (find (t + skew) (redis_key key (t / w)) cs ≡ some c)
          × IsLive key t past c)

  abbrev pub Tracks : List Request → Counters → Type 0
  Tracks past cs = (key : Text) (t : ℕ) → t < 2 ^ 63 → Tracked key t past cs

  module _ (pos_w : 0 < w) where
    bucket-lt : (t : ℕ) → t < (t / w + 1) * w
    bucket-lt t = grind arith

    bucket_end : (t : ℕ) → (t / w + 1) * w ≤ t + w
    bucket_end t = grind arith

    pub bucket-le : (t : ℕ) → t < 2 ^ 63 → t / w < 2 ^ 63
    bucket-le t h = grind arith

    alive_in_window :
        (key : Text) (t : ℕ) (past : List Request) (c : Counter)
        → IsLive key t past c
        → alive (t + skew) c ≡ some c
    alive_in_window key t past c h = ground (arith, h.expires, h.outlives, bucket-lt t)

    pub counted_here :
        (key : Text) (t : ℕ) (past : List Request)
        → count_in w key (t / w) ((key, t) ∷ past) ≡ suc (count_in w key (t / w) past)
    unfolding count_in
    counted_here key t past = rw text_eq_refl (ground arith)

    -- The counter after the script's run.
    unfoldable pub next_counter : ℕ → Option Counter → Counter
    next_counter now o = with_expiry (now + skew) w (incremented o)

    pub next-IsLive :
        (key : Text) (t : ℕ) (past : List Request) (cs : Counters)
        → Tracked key t past cs
        → IsLive key t
            ((key, t) ∷ past)
            (next_counter t (find (t + skew) (redis_key key (t / w)) cs))
    unfolding next_counter
    next-IsLive key t past cs (inl (fresh, zero_there)) = rw fresh (record {
      counted = rw (counted_here key t past, zero_there);
      positive = omega arith;
      expiry = t + skew + w;
      expires = refl;
      outlives = omega (arith, bucket_end t);
    })
    next-IsLive key t past cs (inr (c, found, h)) =
        let again : (suc c.count == 1) ≡ false = ground (arith, h.positive) in
        rw (found, again)
          (record {
            counted = rw (counted_here key t past, h.counted);
            positive = omega arith;
            expiry = h.expiry;
            expires = h.expires;
            outlives = h.outlives;
          })

    -- Another request of the same bucket sees the same counter.
    IsLive-same :
        (k key : Text) (now t : ℕ) (past : List Request) (c : Counter)
        → k ≡ key
        → now / w ≡ t / w
        → IsLive k now past c
        → IsLive key t past c
    IsLive-same k key now t past c e b h = record {
      counted = rw (← e, ← b) h.counted;
      positive = h.positive;
      expiry = h.expiry;
      expires = h.expires;
      outlives = rw (← b) h.outlives;
    }

    counted_elsewhere :
        (k key : Text) (now t : ℕ) (past : List Request)
        → text_eq (redis_key k (now / w)) (redis_key key (t / w)) ≡ false
        → count_in w key (t / w) ((k, now) ∷ past) ≡ count_in w key (t / w) past
    unfolding count_in
    counted_elsewhere k key now t past other =
        elim (Bool-cases (text_eq k key && now / w == t / w)) [
          | inr differs ↦ rw differs (omega arith)
          | inl agrees ↦ absurd (clash agrees)
        ]
      where
        clash : (text_eq k key && now / w == t / w) ≡ true → ⊥
        clash agrees =
            let e : k ≡ key = (text_eq_iff k key).0 (ground arith) in
            let b : now / w ≡ t / w = (==_iff (now / w) (t / w)).0 (ground arith) in
            cc (ap₂ redis_key e b, text_eq_refl (redis_key key (t / w)), other)

    -- A run of the script keeps the counters in step with the requests.
    pub Tracks-step :
        (k : Text) (now : ℕ) (past : List Request) (cs : Counters)
        → now < 2 ^ 63
        → Tracks past cs
        → Tracks ((k, now) ∷ past) (
            put
              (redis_key k (now / w))
              (next_counter now (find (now + skew) (redis_key k (now / w)) cs))
              cs)
    Tracks-step k now past cs fits h key t fits_t =
        let c = next_counter now (find (now + skew) (redis_key k (now / w)) cs) in
        elim (Bool-cases (text_eq (redis_key k (now / w)) (redis_key key (t / w)))) [
          | inl same ↦
              let (e, b) =
                redis_key-injective k key (now / w) (t / w) (bucket-le now fits)
                  (bucket-le t fits_t)
                  ((text_eq_iff (redis_key k (now / w)) (redis_key key (t / w))).0 same) in
              let live =
                IsLive-same k key now t ((k, now) ∷ past) c e b
                  (next-IsLive k now past cs (h k now fits)) in
              inr (
                c,
                find-put (t + skew) (redis_key k (now / w)) c cs (redis_key key (t / w))
                    ∙ rw same (alive_in_window key t ((k, now) ∷ past) c live),
                live,
              )
          | inr other ↦
              elsewhere key t _ (h key t fits_t)
                (find-put (t + skew) (redis_key k (now / w)) c cs (redis_key key (t / w))
                  ∙ rw other refl)
                (counted_elsewhere k key now t past other)
        ]
      where
        elsewhere :
            (key : Text) (t : ℕ) (cs' : Counters)
            → Tracked key t past cs
            → find (t + skew) (redis_key key (t / w)) cs'
              ≡ find (t + skew) (redis_key key (t / w)) cs
            → count_in w key (t / w) ((k, now) ∷ past) ≡ count_in w key (t / w) past
            → Tracked key t ((k, now) ∷ past) cs'
        elsewhere key t cs' (inl (fresh, zero_there)) f n = inl (f ∙ fresh, n ∙ zero_there)
        elsewhere key t cs' (inr (d, found, live)) f n = inr (
          d,
          f ∙ found,
          record {
            counted = live.counted ∙ sym n;
            positive = live.positive;
            expiry = live.expiry;
            expires = live.expires;
            outlives = live.outlives;
          },
        )
