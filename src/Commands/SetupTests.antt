-- ===== src/Commands/SetupTests.antt =====
-- A client asks after cmd/setup has filled the mirror.
use mathlib.Core.List.{Memᴰ}
use mathlib.Core.Path.{subst}
use gateway_login.Base.{
  false, ◌≡◌, refl, sym, ℤ, pos, pos_part, none, [], ◌∷◌, codes, ok, text_eq, sort_by, insert_by,
  arith,
}
use gateway_login.Crypto.{base64_to_key, decrypt, open_raw}
use gateway_login.Stored.{get_decrypted_password}
use gateway_login.ApiKey.{insert_api_key}
use gateway_login.Vps.{
  no_faults, fetch_karyawan_updated_since, karyawan_query, scan_rows, row_le, new_client,
  set_batch_size,
}
use gateway_login.Vps.Connect.{new_client_from_store_config}
use gateway_login.Sync.Store.{
  Db, run_statement, insert_run, state_succeeded, put_state, run_succeeded, update_run, end_tx,
  find_state,
}
use gateway_login.Sync.Rows.{marshals, raw_payload, null_str, null_time}
use gateway_login.Sync.Run.{
  watermark_of, watermark_in, watermark_or_epoch, read_watermark, sync_karyawan, new, open_tx,
  take_lock, start, with_watermark, with_rows, finish_pull, pull, finish, close_run, conclude,
}
use gateway_login.Sync.Mirror.Coverage.{IsCleanCut, IsCleanCut-of_small}
use gateway_login.Setup.{Written, Files, run_prompt_flow, merged, with_defaults}
use gateway_login.Setup.Samples.{written, libraries, nothing, both, ran}
use gateway_login.Commands.Setup.{
  Machine, main, with_written, with_pool, with_migrations, with_inserted, run_migrations,
  run_initial_sync, open_pool, up_error, env_or, prompted,
}
use gateway_login.Commands.Setup.Keeps.{flow}
use gateway_login.Commands.Tests.{wizard, system, answered}
use gateway_login.Commands.Sync.Start.{size_or_default}
use gateway_login.Commands.Sync.Lives.{AllClean, Moment, between, set_up, here}
use gateway_login.Api.View.{view_body}
use gateway_login.Api.Middleware.{hex}
use gateway_login.Gateway.{view_of}
use gateway_login.Gateway.Moments.{Answers, serve-Moment}
use gateway_login.Server.{Data, single, serve}
use gateway_login.Server.Access.{IsLive}
use gateway_login.Server.Samples.{limiting, deps, meets}
use gateway_login.Server
use gateway_login.Samples.{
  text_le, budi, staff, staff-IsTable, empty_db, staff-IsCovered, key_row, no_limiter,
}

-- The VPS can be reached.
abbrev installer : Machine
installer = record wizard { driver = record wizard.driver { pinging = λ dsn. none } }

abbrev filled : Db
filled = (main libraries installer system).system.db

flows : flow libraries installer system ≡ (ok written, both)
unfolding prompted text_eq
flows = subst (λ m. run_prompt_flow libraries m [] nothing ≡ (ok written, both)) (sym answered) ran

sized : written.config.sync.batch_size ≡ pos 500
unfolding merged with_defaults
sized = refl

-- The batch size is that of a configuration without one.
abbrev Unset : ℤ → Type 0
Unset n = n ≡ pos 500

unset-AllClean : AllClean text_le staff Unset
unset-AllClean size since unset =
    subst (λ n. IsCleanCut text_le staff since (pos_part (size_or_default n))) (sym unset)
      (IsCleanCut-of_small text_le staff since 500 (omega arith))

same_written :
    (w : Written) (files : Files) → flow libraries installer system ≡ (ok w, files) → written ≡ w
same_written w files at = cc (flows, at)

moment : Moment text_le staff Unset empty_db filled
moment = between (
    set_up libraries installer nothing [] no_faults here refl (λ w files at.
      subst (λ (v : Written). v.config.sync.batch_size ≡ pos 500) (same_written w files at) sized))

after :
    watermark_of
      (codes "karyawan")
      (with_written libraries installer system (ok written, both)).system.db
    ≡ budi.updated_at
unfolding with_written with_pool with_migrations with_inserted run_migrations run_initial_sync
    open_pool up_error env_or text_eq new_client_from_store_config new_client insert_api_key
    base64_to_key get_decrypted_password merged decrypt open_raw new sync_karyawan open_tx take_lock
    start with_watermark with_rows set_batch_size with_defaults finish_pull pull finish close_run
    conclude run_statement insert_run state_succeeded put_state run_succeeded update_run end_tx
    find_state watermark_in watermark_or_epoch read_watermark fetch_karyawan_updated_since
    karyawan_query scan_rows row_le sort_by insert_by marshals raw_payload null_str null_time
after = refl

marked : watermark_of (codes "karyawan") filled ≡ budi.updated_at
unfolding main
marked =
    subst
      (λ r.
        watermark_of (codes "karyawan") (with_written libraries installer system r).system.db
        ≡ budi.updated_at)
      (sym flows) after

abbrev tables : Data
tables = record {
  karyawan = filled.karyawan;
  api_keys = key_row (codes "one") (codes "6b") false ∷ [];
}

live : IsLive tables.api_keys (hex (codes "k")) (key_row (codes "one") (codes "6b") false)
unfolding hex
live = record { listed = Memᴰ.head refl; same_hash = refl; unrevoked = refl }

serve-Moment_test :
    Answers Server.Samples.libraries limiting deps meets tables
      (codes "k")
      no_limiter
      (record { status = 200; body = view_body (view_of budi) })
      (serve Server.Samples.libraries limiting deps meets tables
        (single (codes "k2"))
        (codes "k")
        no_limiter)
serve-Moment_test =
    serve-Moment Server.Samples.libraries limiting deps meets tables text_le staff Unset empty_db
      filled budi (codes "k") (key_row (codes "one") (codes "6b") false) no_limiter staff-IsTable
      unset-AllClean staff-IsCovered moment (Memᴰ.tail (Memᴰ.head refl)) (omega (arith, marked))
      (cc) refl (cc) refl refl live refl
