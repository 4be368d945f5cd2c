-- ===== src/Gateway/MomentTests.antt =====
-- A client asks while one pass is dead and another has gone through.
use mathlib.Core.List.{Memᴰ}
use mathlib.Core.Path.{subst}
use gateway_login.Base.{
  ℕ, true, false, ◌≡◌, refl, sym, ℤ, none, [], ◌∷◌, codes, pos, pos_part, arith, sort_by, insert_by,
  text_eq,
}
use gateway_login.Vps.{
  no_faults, fetch_karyawan_updated_since, karyawan_query, scan_rows, row_le, Client,
}
use gateway_login.Sync.Store.{
  run_statement, insert_run, state_succeeded, put_state, run_succeeded, update_run, end_tx,
  find_state,
}
use gateway_login.Sync.Rows.{marshals, raw_payload, null_str, null_time}
use gateway_login.Sync.Run.{World, watermark_of, watermark_in, watermark_or_epoch, read_watermark}
use gateway_login.Sync.Mirror.Coverage.{IsCleanCut, IsCleanCut-of_small}
use gateway_login.Commands.Sync.Start.{size_or_default}
use gateway_login.Sync.Steps.{advance}
use gateway_login.Sync.Interleaving.{Passes, whole, cut}
use gateway_login.Sync.Interleaving.Covered.{over_vps}
use gateway_login.Sync.Interleaving.Schedule.{turn, kill, Run, run}
use gateway_login.Api.View.{view_body}
use gateway_login.Api.Handlers.{handle_get}
use gateway_login.Gateway.{view_of, handle_get-Reach}
use gateway_login.Gateway.Moments.{Answers, serve-Moment}
use gateway_login.Commands.Sync.Samples.{machine, state, running_process, starts}
use gateway_login.Commands.Sync.Service.{is_calm, Reach-of_passes}
use gateway_login.Commands.Sync.Lives.{AllClean, passes_of, Moment, during, here}
use gateway_login.Bootstrap.Samples.{closed}
use gateway_login.Api.Middleware.{hex}
use gateway_login.Server.{Data, single, serve}
use gateway_login.Server.Access.{IsLive}
use gateway_login.Server.Samples.{libraries, limiting, deps, meets}
use gateway_login.Samples.{
  text_le, budi, staff, staff-IsTable, empty_db, clock, staff-IsCovered, key_row, no_limiter,
}

abbrev two : Passes Client
two =
    over_vps text_le staff (codes "karyawan") (λ i. no_faults) (λ i. record { batch_size = pos 10 })
      (λ i. pos 10) (λ i. record { fault = λ c. none; clock = clock; run_id = i })

-- The first is killed after it has stored one row; the second goes to its end.
abbrev order : Run two empty_db
order = run two empty_db (
    turn 0
    ∷ turn 1
    ∷ turn 0
    ∷ turn 0
    ∷ turn 0
    ∷ turn 0
    ∷ turn 0
    ∷ kill 0
    ∷ turn 1
    ∷ turn 1
    ∷ turn 1
    ∷ turn 1
    ∷ turn 1
    ∷ turn 1
    ∷ turn 1
    ∷ turn 1
    ∷ turn 1
    ∷ turn 1
    ∷ [])

taken : order.log ≡ whole 1 ∷ cut 0 4 ∷ []
unfolding run advance run_statement insert_run state_succeeded put_state run_succeeded update_run
    end_tx find_state watermark_in watermark_or_epoch read_watermark fetch_karyawan_updated_since
    karyawan_query scan_rows row_le sort_by insert_by text_eq marshals raw_payload null_str
    null_time
taken = refl

marked : watermark_of (codes "karyawan") order.last.db ≡ budi.updated_at
unfolding run advance run_statement insert_run state_succeeded put_state run_succeeded update_run
    end_tx find_state watermark_in watermark_or_epoch read_watermark fetch_karyawan_updated_since
    karyawan_query scan_rows row_le sort_by insert_by text_eq marshals raw_payload null_str
    null_time
marked = refl

handle_get-Reach_test :
    handle_get none order.last.db.karyawan (codes "k2")
    ≡ record { status = 200; body = view_body (view_of budi) }
handle_get-Reach_test =
    handle_get-Reach text_le staff (codes "karyawan") (λ i. no_faults)
      (λ i. record { batch_size = pos 10 }) (λ i. pos 10)
      (λ i. record { fault = λ c. none; clock = clock; run_id = i }) empty_db order.log order.last
      budi staff-IsTable (λ i since. IsCleanCut-of_small text_le staff since 10 (omega arith))
      staff-IsCovered order.reach (Memᴰ.tail (Memᴰ.head refl)) (omega (arith, marked)) (cc)

-- The same passes in a process of the synchroniser that has started, without the death.
abbrev faultless : ℕ → World
faultless i = record { fault = λ c. none; clock = clock; run_id = i }

abbrev overlapping : Run (passes_of text_le staff state (λ i. no_faults) faultless) empty_db
overlapping = run (passes_of text_le staff state (λ i. no_faults) faultless) empty_db (
    turn 0
    ∷ turn 1
    ∷ turn 0
    ∷ turn 0
    ∷ turn 1
    ∷ turn 0
    ∷ turn 0
    ∷ turn 0
    ∷ turn 0
    ∷ turn 0
    ∷ turn 0
    ∷ turn 0
    ∷ turn 0
    ∷ turn 1
    ∷ turn 1
    ∷ turn 1
    ∷ [])

calm : is_calm (passes_of text_le staff state (λ i. no_faults) faultless) 2 overlapping.reach ≡ true
unfolding is_calm run advance run_statement insert_run state_succeeded put_state run_succeeded
    update_run end_tx find_state watermark_in watermark_or_epoch read_watermark
    fetch_karyawan_updated_since karyawan_query scan_rows row_le sort_by insert_by text_eq marshals
    raw_payload null_str null_time
calm = refl

reached : watermark_of (codes "karyawan") overlapping.last.db ≡ budi.updated_at
unfolding run advance run_statement insert_run state_succeeded put_state run_succeeded update_run
    end_tx find_state watermark_in watermark_or_epoch read_watermark fetch_karyawan_updated_since
    karyawan_query scan_rows row_le sort_by insert_by text_eq marshals raw_payload null_str
    null_time
reached = refl

-- The batch size is that of the environment, when it is not set.
abbrev Unset : ℤ → Type 0
Unset n = n ≡ pos 500

unset-AllClean : AllClean text_le staff Unset
unset-AllClean size since unset =
    subst (λ n. IsCleanCut text_le staff since (pos_part (size_or_default n))) (sym unset)
      (IsCleanCut-of_small text_le staff since 500 (omega arith))

abbrev moment : Moment text_le staff Unset empty_db overlapping.last.db
moment =
    during machine closed state running_process (λ i. no_faults) faultless _ here starts refl
      (Reach-of_passes (passes_of text_le staff state (λ i. no_faults) faultless) 1
        overlapping.reach calm)

abbrev tables : Data
tables = record {
  karyawan = overlapping.last.db.karyawan;
  api_keys = key_row (codes "one") (codes "6b") false ∷ [];
}

live : IsLive tables.api_keys (hex (codes "k")) (key_row (codes "one") (codes "6b") false)
unfolding hex
live = record { listed = Memᴰ.head refl; same_hash = refl; unrevoked = refl }

serve-Moment_example :
    Answers libraries limiting deps meets tables
      (codes "k")
      no_limiter
      (record { status = 200; body = view_body (view_of budi) })
      (serve libraries limiting deps meets tables (single (codes "k2")) (codes "k") no_limiter)
serve-Moment_example =
    serve-Moment libraries limiting deps meets tables text_le staff Unset empty_db
      overlapping.last.db budi (codes "k") (key_row (codes "one") (codes "6b") false) no_limiter
      staff-IsTable unset-AllClean staff-IsCovered moment (Memᴰ.tail (Memᴰ.head refl))
      (omega (arith, reached)) (cc) refl (cc) refl refl live refl
