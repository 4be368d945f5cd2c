-- ===== src/Sync/Recovery.antt =====
-- `CleanupStaleRuns`: which rows of `sync_runs` it sets, and which it leaves.
use mathlib.Core.List.{Memᴰ}
use gateway_login.Base.{
  ℕ, zero, neg_i64, suc, ◌+◌, ◌/◌, ◌<◌, pos, ap, some, ◌++◌, codes, ltb, length, text_eq_iff, ℤ,
  ◌≡◌, ◌≢◌, refl, ap₂, true, false, none, List, [], ◌∷◌, map, Text, inl, inr, arith, Bool-cases,
  if◌then◌else◌, ok, select,
}
use gateway_login.Postgres.{Time}
use gateway_login.Sync.Store.{Status, running, success, failed, SyncRun, Db}
use gateway_login.Sync.Cleanup.{
  add_duration, coalesce, is_stale, is_running, recovered, cutoff_of, cleanup_stale_runs,
}

module _ (resource : Text) (cutoff now : Time) where
  abbrev set : SyncRun → SyncRun
  set r = if is_stale resource cutoff r then recovered now r else r

  is_stale-recovered : (r : SyncRun) → is_stale resource cutoff (recovered now r) ≡ false
  unfolding is_stale recovered
  is_stale-recovered r = ground arith

  is_stale-set : (r : SyncRun) → is_stale resource cutoff (set r) ≡ false
  is_stale-set r = elim (Bool-cases (is_stale resource cutoff r)) [
    | inl stale ↦ simp stale (is_stale-recovered r)
    | inr fresh ↦ simp (fresh, fresh)
  ]

  set-fresh : (x : SyncRun) → is_stale resource cutoff x ≡ false → set x ≡ x
  set-fresh x h = simp h refl

  set-set : (rs : List SyncRun) → map set (map set rs) ≡ map set rs
  set-set [] = refl
  set-set (r ∷ rs) = λ i. set-self i ∷ set-set rs i
    where
      set-self : set (set r) ≡ set r
      set-self = set-fresh (set r) (is_stale-set r)

  select-set : (rs : List SyncRun) → select (is_stale resource cutoff) (map set rs) ≡ []
  select-set [] = refl
  select-set (r ∷ rs) = simp (is_stale-set r) (select-set rs)

is_running-running : (s : Status) → is_running s ≡ true → s ≡ running
is_running-running running h = refl
is_running-running success h = absurd (cc)
is_running-running failed h = absurd (cc)

ltb-cutoff_of :
    (read_at : Time) (age : ℕ) (t : Time)
    → ltb t (cutoff_of read_at (pos age)) ≡ ltb (t + (age + 999) / 1000) read_at
unfolding cutoff_of add_duration neg_i64
ltb-cutoff_of read_at zero t = ground arith
ltb-cutoff_of read_at (suc n) t = ground arith

module _ (resource : Text) (age : ℕ) (read_at now : Time) where
  -- A row of the resource that is running and that started longer ago than `age` nanoseconds, which
  -- count as whole microseconds, rounded up.
  pub record IsStuck (r : SyncRun) : Type 0 where
    pub own : r.resource ≡ resource
    pub runs : r.status ≡ running
    pub old : r.started_at + (age + 999) / 1000 < read_at

  -- The row that has failed, with a note after its error.
  abbrev marked : SyncRun → SyncRun
  marked r = record {
    id = r.id;
    resource = r.resource;
    started_at = r.started_at;
    finished_at = some now;
    rows_upserted = r.rows_upserted;
    status = failed;
    error = some (coalesce r.error ++ codes " [recovered: stale running row]");
  }

  -- The rows before and after, in their order, and how many of them were stuck.
  pub data Recovers : List SyncRun → List SyncRun → ℕ → Type 0 where
    empty : Recovers [] [] 0
    marks :
        (r : SyncRun) (before after : List SyncRun) (n : ℕ)
        → IsStuck r
        → Recovers before after n
        → Recovers (r ∷ before) (marked r ∷ after) (suc n)
    leaves :
        (r : SyncRun) (before after : List SyncRun) (n : ℕ)
        → (IsStuck r → ⊥)
        → Recovers before after n
        → Recovers (r ∷ before) (r ∷ after) n

  abbrev cutoff_at : Time
  cutoff_at = cutoff_of read_at (pos age)

  is_stale-IsStuck : (r : SyncRun) → is_stale resource cutoff_at r ≡ true → IsStuck r
  unfolding is_stale
  is_stale-IsStuck r h = record {
    own = (text_eq_iff r.resource resource).0 (ground (arith, h));
    runs = is_running-running r.status (ground (arith, h));
    old = ground (arith, h, ltb-cutoff_of read_at age r.started_at);
  }

  IsStuck-is_stale : (r : SyncRun) → IsStuck r → is_stale resource cutoff_at r ≡ true
  unfolding is_stale
  IsStuck-is_stale r h =
      let own = (text_eq_iff r.resource resource).1 h.own in
      let runs : is_running r.status ≡ true = ap is_running h.runs in
      ground (arith, own, runs, h.old, ltb-cutoff_of read_at age r.started_at)

  map-Recovers :
      (rs : List SyncRun)
      → Recovers rs
          (map (set resource cutoff_at now) rs)
          (length (select (is_stale resource cutoff_at) rs))
  unfolding recovered
  map-Recovers [] = empty
  map-Recovers (r ∷ rs) = elim (Bool-cases (is_stale resource cutoff_at r)) [
    | inl old ↦ rw old (marks r rs _ _ (is_stale-IsStuck r old) (map-Recovers rs))
    | inr fresh ↦
        rw fresh (leaves r rs _ _ (λ h. cc (IsStuck-is_stale r h, fresh)) (map-Recovers rs))
  ]

  -- The statement answers with the number of the rows that were stuck, and has set those rows.
  abbrev pub Cleans : Db → Type 0
  Cleans db =
      (after : List SyncRun) × (n : ℕ) × Recovers db.tables.runs after n
      × (cleanup_stale_runs none resource (pos age) read_at now db
          ≡ (ok n, record db { tables = record db.tables { runs = after } }))

  -- For an age that is not negative, the statement marks as failed exactly the rows of
  -- `sync_runs` of the resource that are running and started before that age, with the note after
  -- their error; it leaves every other row, the order of the rows, the mirror and the
  -- watermarks, and its result is the number of the rows that it marked.
  pub cleanup_stale_runs-Cleans : (db : Db) → Cleans db
  unfolding cleanup_stale_runs
  cleanup_stale_runs-Cleans db = (_, _, map-Recovers db.tables.runs, refl)

module _ (resource : Text) (stale : ℤ) (read_at now : Time) (db : Db) where
  abbrev after_cleanup : Db
  after_cleanup = (cleanup_stale_runs none resource stale read_at now db).1

  -- A second run of the statement with the same age and the same clock finds no row and changes
  -- nothing, and the mirror and the watermarks are those from
  -- before the first.
  pub cleanup_stale_runs-twice :
      (cleanup_stale_runs none resource stale read_at now after_cleanup ≡ (ok 0, after_cleanup))
      × (after_cleanup.karyawan ≡ db.karyawan)
      × (after_cleanup.tables.states ≡ db.tables.states)
  unfolding cleanup_stale_runs
  cleanup_stale_runs-twice = (
    rw (
      select-set resource (cutoff_of read_at stale) now db.tables.runs,
      set-set resource (cutoff_of read_at stale) now db.tables.runs,
    ),
    refl,
    refl,
  )

is_running-ne : (s : Status) → s ≢ running → is_running s ≡ false
is_running-ne running h = absurd (h refl)
is_running-ne success h = refl
is_running-ne failed h = refl

is_stale-settled :
    (resource : Text) (cutoff : Time) (r : SyncRun)
    → r.status ≢ running
    → is_stale resource cutoff r ≡ false
unfolding is_stale
is_stale-settled resource cutoff r h = ground (arith, is_running-ne r.status h)

module _ (resource : Text) (cutoff now : Time) where
  map-set_settled :
      (rs : List SyncRun)
      → ((r : SyncRun) → Memᴰ r rs → r.status ≢ running)
      → (map (set resource cutoff now) rs ≡ rs) × (select (is_stale resource cutoff) rs ≡ [])
  map-set_settled [] h = (refl, refl)
  map-set_settled (r ∷ rs) h =
      let fresh = is_stale-settled resource cutoff r (h r (Memᴰ.head refl)) in
      let (same, none_left) = map-set_settled rs (λ x m. h x (Memᴰ.tail m)) in
      (ap₂ (λ x xs. x ∷ xs) (set-fresh resource cutoff now r fresh) same, simp fresh none_left)

-- Where no row is running, the statement finds none.
pub cleanup_stale_runs-settled :
    (resource : Text) (stale : ℤ) (read_at now : Time) (db : Db)
    → ((r : SyncRun) → Memᴰ r db.tables.runs → r.status ≢ running)
    → cleanup_stale_runs none resource stale read_at now db ≡ (ok 0, db)
unfolding cleanup_stale_runs
cleanup_stale_runs-settled resource stale read_at now db h =
    let (same, none_left) =
      map-set_settled resource (cutoff_of read_at stale) now db.tables.runs h in
    rw (same, none_left) refl
