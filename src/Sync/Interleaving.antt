-- ===== src/Sync/Interleaving.antt =====
-- Passes of `SyncKaryawan` (internal/sync/sync.go) of one resource that run at the same time, over
-- one database: their steps interleave in any order, and the advisory lock lets one of them hold
-- its transaction. The lock of PostgreSQL is free or held by one pass; one that waits may fail.
pub mod Turns
pub mod Moves
pub mod Serial
pub mod Covered
pub mod Schedule
mod Tests
use gateway_login.Base.{
  ℕ, suc, ◌⊎◌, ◌≡◌, Bool, true, false, Option, none, some, List, [], ◌∷◌, ◌++◌, Text, codes,
  if◌then◌else◌, ◌==◌, ℤ,
}
use gateway_login.Sync.Store.{Db, begin}
use gateway_login.Sync.Run.{Source, Syncer, World, Outcome, begin_tx, lock, sync_karyawan}
use gateway_login.Sync.Steps.{Work, inserting, Next, more, over, advance}

-- What a pass with the lock is about to do, after how many calls.
pub record Doing : Type 0 where
  pub made : ℕ
  pub work : Work

-- Before `Begin`, before the lock is taken, with the lock, after the return, and killed.
pub data Stage : Type 0 where
  idle waiting dead : Stage
  holding : Doing → Stage
  returned : ℕ → Option Text → Stage

-- `holder` is the pass that holds the lock.
pub record System : Type 0 where
  pub holder : Option ℕ
  pub stage : ℕ → Stage
  pub db : Db

abbrev pub update : (ℕ → Stage) → ℕ → Stage → ℕ → Stage
update f i x j = if j == i then x else f j

abbrev pub put : System → ℕ → Stage → System
put s i x = record s { stage = update s.stage i x }

abbrev pub first : Db → Doing
first db = record { made = 0; work = inserting (begin db) }

-- The end of the transaction releases the lock.
abbrev pub worked : System → ℕ → ℕ → Next × Db → System
worked s i m (more k, db) = record s {
  stage = update s.stage i (holding (record { made = suc m; work = k }));
  db = db;
}
worked s i m (over n e, db) = record {
  holder = none;
  stage = update s.stage i (returned n e);
  db = db;
}

abbrev pub initial : Db → System
initial db = record { holder = none; stage = λ i. idle; db = db }

-- A pass that has the lock to its end, or that is killed after some calls with it.
pub data Turn : Type 0 where
  whole : ℕ → Turn
  cut : ℕ → ℕ → Turn

-- What a step does to the lock.
pub data Event : Type 0 where
  quiet : Event
  took : ℕ → Event
  died : ℕ → ℕ → Event

-- The turns, the last first; the pass that has the lock counts as whole until it is killed.
abbrev pub grow : Event → List Turn → List Turn
grow quiet log = log
grow (took i) log = whole i ∷ log
grow (died i m) [] = cut i m ∷ []
grow (died i m) (_ ∷ log) = cut i m ∷ log

-- The passes of a resource; each has its own source, and meets its own faults and clocks.
pub record Passes (S : Type 0) : Type 0 where
  pub resource : Text
  pub src : ℕ → Source S
  pub state : ℕ → S
  pub batch : ℕ → ℤ
  pub world : ℕ → World

module _ {S : Type 0} (p : Passes S) where
  abbrev pub syncer : ℕ → Syncer S
  syncer i = record { src = p.state i; resource = p.resource; batch = p.batch i }

  -- A pass alone.
  abbrev pub pass : ℕ → Db → Outcome
  pass i db = sync_karyawan (p.src i) (p.world i) (syncer i) db

  abbrev pub next : ℕ → Work → Db → Next × Db
  next i k db = advance (p.world i) p.resource ((p.src i).fetch (p.state i)) k db

  -- One call of one pass, or the death of its process, which loses the lock with its transaction.
  pub data Step (s : System) : Event → System → Type 0 where
    begins :
        (i : ℕ)
        → s.stage i ≡ idle
        → (p.world i).fault begin_tx ≡ none
        → Step s quiet (put s i waiting)
    cannot_begin :
        (i : ℕ) (e : Text)
        → s.stage i ≡ idle
        → (p.world i).fault begin_tx ≡ some e
        → Step s quiet (put s i (returned 0 (some (codes "begin lock tx: " ++ e))))
    cannot_lock :
        (i : ℕ) (e : Text)
        → s.stage i ≡ waiting
        → (p.world i).fault lock ≡ some e
        → Step s quiet (put s i (returned 0 (some (codes "acquire advisory lock: " ++ e))))
    locks :
        (i : ℕ)
        → s.stage i ≡ waiting
        → (p.world i).fault lock ≡ none
        → s.holder ≡ none
        → Step s
            (took i)
            (record s { holder = some i; stage = update s.stage i (holding (first s.db)) })
    works :
        (i : ℕ) (k : Doing)
        → s.stage i ≡ holding k
        → Step s quiet (worked s i k.made (next i k.work s.db))
    dies :
        (i : ℕ) (k : Doing)
        → s.stage i ≡ holding k
        → Step s (died i k.made) (record s { holder = none; stage = update s.stage i dead })
    dies_early : (i : ℕ) → (s.stage i ≡ idle) ⊎ (s.stage i ≡ waiting) → Step s quiet (put s i dead)

  -- The pass that takes the step, and whether the step is its death.
  unfoldable pub actor : {s t : System} {event : Event} → Step s event t → ℕ
  actor (begins i at fine) = i
  actor (cannot_begin i e at bad) = i
  actor (cannot_lock i e at bad) = i
  actor (locks i at fine free) = i
  actor (works i k at) = i
  actor (dies i k at) = i
  actor (dies_early i at) = i

  unfoldable pub is_death : {s t : System} {event : Event} → Step s event t → Bool
  is_death (begins i at fine) = false
  is_death (cannot_begin i e at bad) = false
  is_death (cannot_lock i e at bad) = false
  is_death (locks i at fine free) = false
  is_death (works i k at) = false
  is_death (dies i k at) = true
  is_death (dies_early i at) = true

  -- From a database where no pass runs, by the turns of the list.
  pub data Reach (db : Db) : List Turn → System → Type 0 where
    here : Reach db [] (initial db)
    later :
        {log : List Turn} {s t : System} {event : Event}
        → Reach db log s
        → Step s event t
        → Reach db (grow event log) t
