-- ===== src/Commands/Sync/Service.antt =====
-- cmd/sync/main.go from `go runOnce` on: the passes that the process starts, and its shutdown. A
-- pass is a goroutine, the first by `main` and the others by the scheduler of robfig/cron, which
-- starts one at each tick, whether or not an earlier one still runs. `c.Stop` keeps it from
-- starting more and returns at once, as that library documents; it does not wait for passes that
-- run. A call that is cancelled or times out is a call that fails.
use mathlib.Core.Path.{subst}
use gateway_login.Base.{
  ℕ, zero, suc, ◌<◌, ltb, not, ◌&&◌, arith, ◌≡◌, ◌≢◌, refl, Bool, true, false, List, [], ◌⊎◌,
}
use gateway_login.Sync.Store.{Db}
use gateway_login.Sync.Interleaving
use gateway_login.Sync.Interleaving.{
  Turn, Event, System, Passes, grow, actor, is_death, initial, waiting, holding, Doing, begins,
  cannot_begin, cannot_lock, locks, works, dies, dies_early,
}

-- Until the signal, until `c.Stop` has returned or the wait for it is over, while the deferred calls
-- close the VPS client and the pool, and after the exit. A call of a pass that meets a closed pool
-- or client is a call that fails.
pub data Phase : Type 0 where
  serving stopping stopped overdue exited : Phase

abbrev pub IsTicking : Phase → Type 0
IsTicking serving = Unit
IsTicking stopping = Unit
IsTicking stopped = ⊥
IsTicking overdue = Unit
IsTicking exited = ⊥

-- `spawned` counts the passes that have been started; the passes from it on are not.
pub record Service : Type 0 where
  pub phase : Phase
  pub spawned : ℕ
  pub log : List Turn
  pub sys : System

-- The first pass has been started by `go runOnce`.
abbrev pub begun : Db → Service
begun db = record { phase = serving; spawned = 1; log = []; sys = initial db }

module _ {S : Type 0} (p : Passes S) where
  abbrev moved : Service → Event → System → Service
  moved s event t = record s { log = grow event s.log; sys = t }

  pub data Step (s : Service) : Service → Type 0 where
    ticks : IsTicking s.phase → Step s (record s { spawned = suc s.spawned })
    signalled : s.phase ≡ serving → Step s (record s { phase = stopping })
    -- `<-stopDone` and `<-time.After`
    stops : s.phase ≡ stopping → Step s (record s { phase = stopped })
    times_out : s.phase ≡ stopping → Step s (record s { phase = overdue })
    leaves : (s.phase ≡ stopped) ⊎ (s.phase ≡ overdue) → Step s (record s { phase = exited })
    crashes : Step s (record s { phase = exited })
    -- A call of a pass that was started.
    calls :
        {event : Event} {t : System} (st : Interleaving.Step p s.sys event t)
        → s.phase ≢ exited
        → actor p st < s.spawned
        → is_death p st ≡ false
        → Step s (moved s event t)
    -- PostgreSQL finds that the connection of a pass is gone.
    reaped :
        {event : Event} {t : System} (st : Interleaving.Step p s.sys event t)
        → s.phase ≡ exited
        → is_death p st ≡ true
        → Step s (moved s event t)

  pub data Reach (db : Db) : Service → Type 0 where
    here : Reach db (begun db)
    later : {s t : Service} → Reach db s → Step s t → Reach db t

  -- No connection of the process is left.
  abbrev pub IsOver : Service → Type 0
  IsOver s =
      (s.phase ≡ exited)
      × ((i : ℕ) → s.sys.stage i ≢ waiting)
      × ((i : ℕ) (k : Doing) → s.sys.stage i ≢ holding k)

  -- The passes of the process are passes that interleave.
  pub Reach-passes : {db : Db} {s : Service} → Reach db s → Interleaving.Reach p db s.log s.sys
  Reach-passes here = Interleaving.here
  Reach-passes (later r (ticks h)) = Reach-passes r
  Reach-passes (later r (signalled h)) = Reach-passes r
  Reach-passes (later r (stops h)) = Reach-passes r
  Reach-passes (later r (leaves h)) = Reach-passes r
  Reach-passes (later r (times_out h)) = Reach-passes r
  Reach-passes (later r crashes) = Reach-passes r
  Reach-passes (later r (calls st alive started not_death)) = Interleaving.later (Reach-passes r) st
  Reach-passes (later r (reaped st gone death)) = Interleaving.later (Reach-passes r) st

  death-same :
      {s t : System} {event : Event} (st : Interleaving.Step p s event t)
      → is_death p st ≡ true
      → t.db ≡ s.db
  unfolding is_death
  death-same (begins i at fine) h = absurd (cc)
  death-same (cannot_begin i e at bad) h = absurd (cc)
  death-same (cannot_lock i e at bad) h = absurd (cc)
  death-same (locks i at fine free) h = absurd (cc)
  death-same (works i k at) h = absurd (cc)
  death-same (dies i k at) h = refl
  death-same (dies_early i at) h = refl

  -- After the exit the database stays as it is.
  pub Step-exited :
      {s t : Service} → Step s t → s.phase ≡ exited → (t.phase ≡ exited) × (t.sys.db ≡ s.sys.db)
  Step-exited (ticks h) e = absurd (subst IsTicking e h)
  Step-exited (signalled h) e = absurd (cc)
  Step-exited (stops h) e = absurd (cc)
  Step-exited (leaves h) e = (refl, refl)
  Step-exited (times_out h) e = absurd (cc)
  Step-exited crashes e = (refl, refl)
  Step-exited (calls st alive started not_death) e = absurd (alive e)
  Step-exited (reaped st gone death) e = (e, death-same st death)

  -- The steps of a run are those of the first passes, and none is a death.
  unfoldable pub is_calm :
      {db : Db} {log : List Turn} {sys : System} → ℕ → Interleaving.Reach p db log sys → Bool
  unfolding actor is_death
  is_calm n Interleaving.here = true
  is_calm n (Interleaving.later r st) = is_calm n r && ltb (actor p st) n && not (is_death p st)

  ticked : (db : Db) (n : ℕ) → Reach db (record (begun db) { spawned = suc n })
  ticked db zero = here
  ticked db (suc n) = later (ticked db n) (ticks tt)

  -- Passes that interleave without a death are passes of a process that serves.
  pub Reach-of_passes :
      {db : Db} {log : List Turn} {sys : System} (n : ℕ) (r : Interleaving.Reach p db log sys)
      → is_calm (suc n) r ≡ true
      → Reach db (record { phase = serving; spawned = suc n; log = log; sys = sys })
  unfolding is_calm
  Reach-of_passes {db} n Interleaving.here h = ticked db n
  Reach-of_passes n (Interleaving.later r st) h =
      later (Reach-of_passes n r (ground (arith, h)))
        (calls st (λ e. cc) (ground (arith, h)) (ground (arith, h)))
