-- ===== src/Sync/Interleaving/Turns.antt =====
-- The turn of a pass, and what holds between the steps of passes that interleave.
use mathlib.Core.List.{Memᴰ}
use mathlib.Core.Path.{subst}
use gateway_login.Base.{
  ℕ, ◌≡◌, ◌≢◌, refl, sym, ◌∙◌, Option, none, some, List, [], ◌∷◌, ◌++◌, Text, codes, ◌==◌,
  Bool-cases, inl, inr, ◌⊎◌, arith,
}
use gateway_login.Sync.Store.{Db, begin, run_statement}
use gateway_login.Sync.Run.{Outcome, begin_tx, lock, open_tx, take_lock, start, sync_karyawan}
use gateway_login.Sync.Steps.{Work, Next, more, rest}
use gateway_login.Sync.Steps.Killed.{calls, killed}
use gateway_login.Sync.Interleaving.{
  Doing, Turn, whole, cut, Stage, idle, waiting, holding, returned, System, Passes, update, put,
  pass,
}

pub update-same : (f : ℕ → Stage) (i : ℕ) (x : Stage) → update f i x i ≡ x
update-same f i x = ground arith

pub update-other : (f : ℕ → Stage) (i : ℕ) (x : Stage) (j : ℕ) → j ≢ i → update f i x j ≡ f j
update-other f i x j h = ground (arith, h)

pub update-cases :
    (f : ℕ → Stage) (i : ℕ) (x : Stage) (j : ℕ) {y : Stage}
    → update f i x j ≡ y
    → ((j ≡ i) × (x ≡ y)) ⊎ ((j ≢ i) × (f j ≡ y))
update-cases f i x j {y} h = elim (Bool-cases (j == i)) [
  | inl same ↦ inl (ground (arith, same), cc (rw same at h))
  | inr other ↦ inr (ground (arith, other), cc (rw other at h))
]

-- The pass has left the stages before the lock.
abbrev pub IsPast : Stage → Type 0
IsPast x = (x ≢ idle) × (x ≢ waiting)

-- No pass is twice in the list.
abbrev pub Once : List ℕ → Type 0
Once [] = Unit
Once (i ∷ log) = ¬ Memᴰ i log × Once log

-- The passes that took the lock.
abbrev pub passes_of : List Turn → List ℕ
passes_of [] = []
passes_of (whole i ∷ log) = i ∷ passes_of log
passes_of (cut i m ∷ log) = i ∷ passes_of log

module _ {S : Type 0} (p : Passes S) (db : Db) where
  abbrev pub alone : ℕ → Db → Outcome
  alone i d = pass p i d

  abbrev pub calls_of : ℕ → ℕ → Db → Next × Db
  calls_of i m d = calls (p.world i) p.resource ((p.src i).fetch (p.state i)) m d

  -- The turns one after the other, the last first in the list.
  abbrev pub serial : List Turn → Db
  serial [] = db
  serial (whole i ∷ log) = (pass p i (serial log)).db
  serial (cut i m ∷ log) =
      killed (p.world i) p.resource ((p.src i).fetch (p.state i)) m (serial log)

  -- What the pass `i` returns: at its turn, or as on any database if it never takes the lock.
  abbrev pub Answer : List Turn → ℕ → ℕ → Option Text → Type 0
  Answer [] i n e = (d : Db) → pass p i d ≡ record { count = n; error = e; db = d }
  Answer (whole j ∷ log) i n e =
      ((j ≡ i) × ((pass p i (serial log)).count ≡ n) × ((pass p i (serial log)).error ≡ e))
      ⊎ Answer log i n e
  Answer (cut j m ∷ log) i n e = Answer log i n e

  -- The rest of a pass is the rest of its turn.
  abbrev pub Rests : List Turn → Db → Doing → ℕ → Type 0
  Rests before d k i =
      rest (p.world i) p.resource ((p.src i).fetch (p.state i)) k.work d ≡ alone i (serial before)

  -- Its calls so far are those of its turn.
  abbrev pub Called : List Turn → Db → Doing → ℕ → Type 0
  Called before d k i = calls_of i k.made (serial before) ≡ (more k.work, d)

  -- A pass that was killed had not returned.
  abbrev pub Cuts : List Turn → Type 0
  Cuts [] = Unit
  Cuts (whole i ∷ log) = Cuts log
  Cuts (cut i m ∷ log) =
      ((k : Work) × (d : Db) × (calls_of i m (serial log) ≡ (more k, d))) × Cuts log

  -- The pass that holds the lock has the last turn.
  abbrev pub Held : Option ℕ → List Turn → System → Type 0
  Held none log s = (s.db ≡ serial log) × ((i : ℕ) (k : Doing) → s.stage i ≢ holding k)
  Held (some i) log s =
      (k : Doing) × (before : List Turn) × (s.stage i ≡ holding k)
      × (log ≡ whole i ∷ before)
      × Rests before s.db k i
      × Called before s.db k i
      × ((j : ℕ) (l : Doing) → s.stage j ≡ holding l → j ≡ i)

  -- What holds of the lock, of the passes that wait or have returned, and of those that had it.
  pub record Inv (log : List Turn) (s : System) : Type 0 where
    pub held : Held s.holder log s
    pub began : (i : ℕ) → s.stage i ≡ waiting → (p.world i).fault begin_tx ≡ none
    pub answers : (i n : ℕ) (e : Option Text) → s.stage i ≡ returned n e → Answer log i n e
    pub past : (i : ℕ) → Memᴰ i (passes_of log) → IsPast (s.stage i)
    pub once : Once (passes_of log)
    pub cuts : Cuts log

  pub pass-cannot_begin :
      (i : ℕ) (e : Text) (d : Db)
      → (p.world i).fault begin_tx ≡ some e
      → alone i d ≡ record { count = 0; error = some (codes "begin lock tx: " ++ e); db = d }
  unfolding sync_karyawan open_tx
  pass-cannot_begin i e d h = rw h refl

  pub pass-cannot_lock :
      (i : ℕ) (e : Text) (d : Db)
      → (p.world i).fault begin_tx ≡ none
      → (p.world i).fault lock ≡ some e
      → alone i d
        ≡ record { count = 0; error = some (codes "acquire advisory lock: " ++ e); db = d }
  unfolding sync_karyawan open_tx take_lock run_statement
  pass-cannot_lock i e d h l = rw (h, l) refl

  pub pass-locked :
      (i : ℕ) (d : Db)
      → (p.world i).fault begin_tx ≡ none
      → (p.world i).fault lock ≡ none
      → alone i d ≡ start (p.world i) p.resource ((p.src i).fetch (p.state i)) (begin d) d
  unfolding sync_karyawan open_tx take_lock run_statement
  pass-locked i d h l = rw (h, l) refl

  pub Answer-anywhere :
      (log : List Turn) (i n : ℕ) (e : Option Text)
      → ((d : Db) → alone i d ≡ record { count = n; error = e; db = d })
      → Answer log i n e
  Answer-anywhere [] i n e h = h
  Answer-anywhere (whole j ∷ log) i n e h = inr (Answer-anywhere log i n e h)
  Answer-anywhere (cut j m ∷ log) i n e h = Answer-anywhere log i n e h

  -- A step of a pass without the lock leaves the holder.
  pub Held-put :
      (holder : Option ℕ) (log : List Turn) (s : System) (i : ℕ) (x : Stage)
      → ((k : Doing) → s.stage i ≢ holding k)
      → ((k : Doing) → x ≢ holding k)
      → Held holder log s
      → Held holder log (put s i x)
  Held-put none log s i x was is (same, no_holder) = (
    same,
    λ j k h. elim (update-cases s.stage i x j h) [
      | inl (own, e) ↦ absurd (is k e)
      | inr (other, e) ↦ absurd (no_holder j k e)
    ],
  )
  Held-put (some h) log s i x was is (k, before, at, logged, same, called, only) =
      let other : h ≢ i = λ e. was k (subst (λ j. s.stage j ≡ holding k) e at) in
      (
        k,
        before,
        update-other s.stage i x h other ∙ at,
        logged,
        same,
        called,
        λ j l q. elim (update-cases s.stage i x j q) [
          | inl (own, e) ↦ absurd (is l e)
          | inr (apart, e) ↦ only j l e
        ],
      )

  pub Answers-update :
      (log : List Turn) (s : System) (i : ℕ) (x : Stage)
      → ((j n : ℕ) (e : Option Text) → s.stage j ≡ returned n e → Answer log j n e)
      → ((n : ℕ) (e : Option Text) → x ≡ returned n e → Answer log i n e)
      → (j n : ℕ) (e : Option Text) → update s.stage i x j ≡ returned n e
      → Answer log j n e
  Answers-update log s i x old new j n e h = elim (update-cases s.stage i x j h) [
    | inl (own, q) ↦ subst (λ m. Answer log m n e) (sym own) (new n e q)
    | inr (apart, q) ↦ old j n e q
  ]

  pub Began-update :
      (s : System) (i : ℕ) (x : Stage)
      → ((j : ℕ) → s.stage j ≡ waiting → (p.world j).fault begin_tx ≡ none)
      → (x ≡ waiting → (p.world i).fault begin_tx ≡ none)
      → (j : ℕ) → update s.stage i x j ≡ waiting
      → (p.world j).fault begin_tx ≡ none
  Began-update s i x old new j h = elim (update-cases s.stage i x j h) [
    | inl (own, q) ↦ subst (λ m. (p.world m).fault begin_tx ≡ none) (sym own) (new q)
    | inr (apart, q) ↦ old j q
  ]

  pub Past-update :
      (log : List ℕ) (s : System) (i : ℕ) (x : Stage)
      → ((j : ℕ) → Memᴰ j log → IsPast (s.stage j))
      → (Memᴰ i log → IsPast x)
      → (j : ℕ) → Memᴰ j log
      → IsPast (update s.stage i x j)
  Past-update log s i x old new j m = elim (Bool-cases (j == i)) [
    | inl same ↦
        let own : j ≡ i = ground (arith, same) in rw same (new (subst (λ q. Memᴰ q log) own m))
    | inr other ↦ rw other (old j m)
  ]
