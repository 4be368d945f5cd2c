-- ===== src/Sync/Interleaving/Tests.antt =====
-- Two passes at the same time, over a VPS without new rows.
use gateway_login.Base.{ℕ, ◌≡◌, refl, none, [], ◌∷◌, codes, ok, pos}
use gateway_login.Sync.Store.{
  run_statement, insert_run, state_succeeded, put_state, run_succeeded, update_run, end_tx,
  find_state, Tx, begin,
}
use gateway_login.Sync.Run.{World, start, watermark_in, watermark_or_epoch, read_watermark}
use gateway_login.Sync.Steps.{inserting, more, over, advance, steps}
use gateway_login.Sync.Steps.Returns.{steps-start}
use gateway_login.Sync.Interleaving.{Passes, waiting, returned, whole, cut}
use gateway_login.Sync.Interleaving.Schedule.{turn, kill, Run, run}
use gateway_login.Sync.Interleaving.Serial.{IsSerial, Reach-IsSerial}
use gateway_login.Samples.{empty_db, clock}

abbrev two : Passes ℕ
two = record {
  resource = codes "karyawan";
  src = λ i. record { fetch = λ n mark. ok []; sizer = none };
  state = λ i. 0;
  batch = λ i. pos 10;
  world = λ i. record { fault = λ c. none; clock = clock; run_id = i };
}

-- The second begins while the first holds the lock, and takes it when the first is killed.
abbrev order : Run two empty_db
order = run two empty_db (
    turn 0
    ∷ turn 0
    ∷ turn 1
    ∷ turn 0
    ∷ turn 1
    ∷ turn 0
    ∷ kill 0
    ∷ turn 1
    ∷ turn 1
    ∷ turn 1
    ∷ turn 1
    ∷ turn 1
    ∷ turn 1
    ∷ turn 1
    ∷ turn 1
    ∷ [])

-- The second waits.
waits : (run two empty_db (turn 0 ∷ turn 0 ∷ turn 1 ∷ turn 1 ∷ [])).last.stage 1 ≡ waiting
unfolding run advance run_statement insert_run
waits = refl

taken : order.log ≡ whole 1 ∷ cut 0 2 ∷ []
unfolding run advance run_statement insert_run state_succeeded put_state run_succeeded update_run
    end_tx find_state watermark_in watermark_or_epoch read_watermark
taken = refl

ended : order.last.stage 1 ≡ returned 0 none
unfolding run advance run_statement insert_run state_succeeded put_state run_succeeded update_run
    end_tx find_state watermark_in watermark_or_epoch read_watermark
ended = refl

Reach-IsSerial_example : IsSerial two empty_db order.log order.last
Reach-IsSerial_example = Reach-IsSerial two empty_db order.log order.last order.reach

abbrev world : World
world = record { fault = λ c. none; clock = clock; run_id = 1 }

abbrev tx : Tx
tx = begin empty_db

-- A pass alone.
steps-start_test :
    (m : ℕ) × (steps world (codes "karyawan") (λ mark. ok []) m (more (inserting tx), empty_db) ≡ (
      over
          (start world (codes "karyawan") (λ mark. ok []) tx empty_db).count
          (start world (codes "karyawan") (λ mark. ok []) tx empty_db).error,
      (start world (codes "karyawan") (λ mark. ok []) tx empty_db).db,
    ))
steps-start_test = steps-start world (codes "karyawan") (λ mark. ok []) tx empty_db
