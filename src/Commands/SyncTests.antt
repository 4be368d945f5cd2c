-- ===== src/Commands/SyncTests.antt =====
-- A start of the synchroniser on the files of a setup, and a pass before it.
use gateway_login.Base.{◌≡◌, codes, text_eq}
use gateway_login.Settings
use gateway_login.Settings.{check_required, default_of}
use gateway_login.Settings.Samples
use gateway_login.Settings.Samples.{environment, settings, text_of, number_of}
use gateway_login.Bootstrap.{
  Opened, run, must_run, with_settings, with_pool, with_redis, new_pool, new_client, close_pool,
}
use gateway_login.Bootstrap.Samples.{healthy, closed}
use gateway_login.Sync.Store.{Db}
use gateway_login.Sync.Steps.Killed.{killed}
use gateway_login.Sync.Runs.{AllSettled}
use gateway_login.Samples.{empty_db, syncer}
use gateway_login.Commands.Source.{client_source}
use gateway_login.Commands.Sync.{start, run_once}
use gateway_login.Commands.Api
use gateway_login.Commands.Api.Ends.{main-Leaves}
use gateway_login.Commands.Sync.Start.{IsStarted, start-IsStarted}
use gateway_login.Commands.Sync.Passes.{here, later, ran, killed_pass, start-Reach}
use gateway_login.Commands.Sync.Samples.{
  upstream, world, machine, process, state, running_process, starts,
}

-- A pass that is killed after two rows, and one after it.
abbrev cut_off : Db
cut_off =
    killed world (codes "karyawan") ((client_source upstream).fetch (syncer 10).src) 5 empty_db

abbrev left : Db
left = (run_once upstream world (syncer 10) cut_off).1

no_rows : AllSettled empty_db
no_rows r m = elim m [ ]

start-Reach_example :
    AllSettled left × ((start machine (record { opened = closed; db = left })).1.db ≡ left)
start-Reach_example =
    start-Reach {a = empty_db} machine closed no_rows (
      later (later here (killed_pass upstream world (syncer 10) 5))
        (ran upstream world (syncer 10)))

start-IsStarted_example : IsStarted machine process state running_process
start-IsStarted_example = start-IsStarted machine process state running_process starts

-- The API whose listener fails.
main-Leaves_example :
    ◌≡◌ {A = Opened} (record { pools = 1; clients = 1 }) (record { pools = 1; clients = 1 })
unfolding Api.main Api.ended must_run run with_settings with_pool with_redis new_pool new_client
    close_pool text_eq Settings.load check_required default_of Settings.Samples.libraries text_of
    number_of
main-Leaves_example =
    main-Leaves Settings.Samples.libraries environment healthy
      (Api.listener_failed (codes "address already in use")) closed
