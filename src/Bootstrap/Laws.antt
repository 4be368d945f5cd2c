-- ===== src/Bootstrap/Laws.antt =====
-- What `Run` of internal/bootstrap/bootstrap.go leaves open, on success and on each error.
use gateway_login.Base.{
  ℕ, ◌+◌, ◌-◌, ◌≡◌, refl, ap, ap₂, Option, none, some, ◌++◌, Text, codes, Result, ok, err, ◌⊎◌, inl,
  inr, arith, is_empty, Bool-cases,
}
use gateway_login.Settings
use gateway_login.Settings.{Settings, Libraries}
use gateway_login.Bootstrap.{
  Opened, Pool, RedisClient, Faults, Deps, close, closed_pool, closed_client, close_pool,
  close_client, new_pool, parsed_pool, created_pool, pinged_pool, new_client, pinged_client,
  with_redis, with_pool, with_settings, run,
}

-- A client is left open by the error of its ping.
abbrev pub Leaks : Faults → Opened → Text → Opened → Type 0
Leaks f o e o' =
    (p : Text) × (f.ping_redis ≡ some p)
    × (e ≡ codes "redis: ping redis: " ++ p)
    × (o'.clients ≡ o.clients + 1)

-- One pool and one client more are open, and closing gives back what was open; after an error no pool is left, and no client but by `Leaks`.
abbrev pub Closes : Faults → Opened → Result Text Deps × Opened → Type 0
Closes f o (ok d, o') =
    (o' ≡ record { pools = o.pools + 1; clients = o.clients + 1 }) × (close (some d) o' ≡ o)
Closes f o (err e, o') = (o'.pools ≡ o.pools) × ((o'.clients ≡ o.clients) ⊎ Leaks f o e o')

-- What opening a pool leaves.
abbrev Pooled : Opened → Result Text Pool × Opened → Type 0
Pooled o (ok p, o') = o' ≡ record o { pools = o.pools + 1 }
Pooled o (err e, o') = o' ≡ o

suc-pred : (n : ℕ) → n + 1 - 1 ≡ n
suc-pred n = omega arith

new_pool-Pooled : (f : Faults) (dsn : Text) (o : Opened) → Pooled o (new_pool f dsn o)
unfolding new_pool parsed_pool created_pool pinged_pool close_pool
new_pool-Pooled f dsn o = go f.parse_config f.new_with_config f.ping_pg
  where
    go : (parse create ping : Option Text) → Pooled o (parsed_pool parse create ping dsn o)
    go (some e) create ping = refl
    go none (some e) ping = refl
    go none none (some e) = ap (λ n. record o { pools = n }) (suc-pred o.pools)
    go none none none = refl

module _ (f : Faults) (o : Opened) (cfg : Settings) (pool : Pool) where
  abbrev with_one : Opened
  with_one = record o { pools = o.pools + 1 }

  pinged-Closes :
      (ping : Option Text)
      → f.ping_redis ≡ ping
      → (c : RedisClient)
      → Closes f o
          (with_redis cfg pool (pinged_client ping c (record with_one { clients = o.clients + 1 })))
  unfolding with_redis pinged_client close closed_pool closed_client close_pool close_client
  pinged-Closes (some e) meets c = (suc-pred o.pools, inr (e, meets, refl, refl))
  pinged-Closes none meets c =
      (refl, ap₂ (λ p n. record { pools = p; clients = n }) (suc-pred o.pools) (suc-pred o.clients))

  redis-Closes :
      Closes f o
        (with_redis cfg pool (new_client f cfg.redis_addr cfg.redis_password cfg.redis_db with_one))
  unfolding new_client
  redis-Closes = elim (Bool-cases (is_empty cfg.redis_addr)) [
    | inl missing ↦ rw missing (unfold with_redis close_pool in (suc-pred o.pools, inl refl))
    | inr given ↦ rw given (
        pinged-Closes f.ping_redis refl
          (record { addr = cfg.redis_addr; password = cfg.redis_password; db = cfg.redis_db }))
  ]

pool-Closes :
    (f : Faults) (o : Opened) (cfg : Settings) (r : Result Text Pool) (o' : Opened)
    → Pooled o (r, o')
    → Closes f o (with_pool f cfg (r, o'))
unfolding with_pool
pool-Closes f o cfg (err e) o' h =
    (ap (λ (x : Opened). x.pools) h, inl (ap (λ (x : Opened). x.clients) h))
pool-Closes f o cfg (ok pool) o' h = rw h (redis-Closes f o cfg pool)

-- A start that succeeds opens one pool and one Redis client, and closing what it returned leaves
-- open exactly what was open before it. After one that failed, whatever failed, no pool of it is open, and no Redis client, unless
-- the ping of Redis failed: that leaves one client open.
pub run-Closes :
    (lib : Libraries) (env : Text → Text) (f : Faults) (o : Opened) → Closes f o (run lib env f o)
unfolding run
run-Closes lib env f o = go (Settings.load lib env)
  where
    go : (r : Result Text Settings) → Closes f o (with_settings f r o)
    go (err e) = unfold with_settings in (refl, inl refl)
    go (ok cfg) =
        unfold with_settings in
        pool-Closes f o cfg (new_pool f cfg.postgres_dsn o).0 (new_pool f cfg.postgres_dsn o).1
          (new_pool-Pooled f cfg.postgres_dsn o)
