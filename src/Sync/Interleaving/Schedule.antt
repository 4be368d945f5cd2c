-- ===== src/Sync/Interleaving/Schedule.antt =====
-- States that passes reach, by evaluation: the passes take a call, or are killed, in a given order.
use gateway_login.Base.{ℕ, ◌≡◌, refl, Option, none, some, List, [], ◌∷◌, Text, inl, inr}
use gateway_login.Sync.Store.{Db}
use gateway_login.Sync.Run.{begin_tx, lock}
use gateway_login.Sync.Interleaving.{
  Stage, idle, waiting, holding, returned, System, Passes, begins, cannot_begin, cannot_lock, locks,
  works, dies, dies_early, dead, Turn, initial, Reach, here, later,
}

pub data Order : Type 0 where
  turn kill : ℕ → Order

module _ {S : Type 0} (p : Passes S) (db : Db) where
  pub record Run : Type 0 where
    pub log : List Turn
    pub last : System
    pub reach : Reach p db log last

  by_begin :
      (r : Run) (i : ℕ)
      → r.last.stage i ≡ idle
      → (f : Option Text) → (p.world i).fault begin_tx ≡ f
      → Run
  by_begin r i at none e = record { log = _; last = _; reach = later r.reach (begins i at e) }
  by_begin r i at (some c) e = record {
    log = _;
    last = _;
    reach = later r.reach (cannot_begin i c at e);
  }

  -- A pass that waits while another holds the lock takes no step.
  by_holder :
      (r : Run) (i : ℕ)
      → r.last.stage i ≡ waiting
      → (p.world i).fault lock ≡ none
      → (h : Option ℕ) → r.last.holder ≡ h
      → Run
  by_holder r i at fine none e = record {
    log = _;
    last = _;
    reach = later r.reach (locks i at fine e);
  }
  by_holder r i at fine (some h) e = r

  by_lock :
      (r : Run) (i : ℕ)
      → r.last.stage i ≡ waiting
      → (f : Option Text) → (p.world i).fault lock ≡ f
      → Run
  unfolding by_holder
  by_lock r i at none e = by_holder r i at e r.last.holder refl
  by_lock r i at (some c) e = record {
    log = _;
    last = _;
    reach = later r.reach (cannot_lock i c at e);
  }

  by_stage : (r : Run) (i : ℕ) → (x : Stage) → r.last.stage i ≡ x → Run
  unfolding by_begin by_lock
  by_stage r i idle at = by_begin r i at ((p.world i).fault begin_tx) refl
  by_stage r i waiting at = by_lock r i at ((p.world i).fault lock) refl
  by_stage r i (holding k) at = record { log = _; last = _; reach = later r.reach (works i k at) }
  by_stage r i (returned n e) at = r
  by_stage r i dead at = r

  killed_at : (r : Run) (i : ℕ) → (x : Stage) → r.last.stage i ≡ x → Run
  killed_at r i idle at = record {
    log = _;
    last = _;
    reach = later r.reach (dies_early i (inl at));
  }
  killed_at r i waiting at = record {
    log = _;
    last = _;
    reach = later r.reach (dies_early i (inr at));
  }
  killed_at r i (holding k) at = record { log = _; last = _; reach = later r.reach (dies i k at) }
  killed_at r i (returned n e) at = r
  killed_at r i dead at = r

  turns : Run → List Order → Run
  unfolding by_stage killed_at
  turns r [] = r
  turns r (turn i ∷ os) = turns (by_stage r i (r.last.stage i) refl) os
  turns r (kill i ∷ os) = turns (killed_at r i (r.last.stage i) refl) os

  unfoldable pub run : List Order → Run
  unfolding turns
  run order = turns (record { log = []; last = initial db; reach = here }) order
