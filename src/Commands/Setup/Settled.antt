-- ===== src/Commands/Setup/Settled.antt =====
-- The rows of `sync_runs` that a run of cmd/setup leaves.
use gateway_login.Sync.Runs.{AllSettled, sync_karyawan-AllSettled}
use gateway_login.Setup.{Libraries}
use gateway_login.Commands.Source.{client_source}
use gateway_login.Commands.Setup.{Machine, System, main}
use gateway_login.Commands.Setup.Keeps.{main-keeps}

pub main-AllSettled :
    (lib : Libraries) (x : Machine) (s : System)
    → AllSettled s.db
    → AllSettled (main lib x s).system.db
main-AllSettled lib x s h =
    main-keeps lib x AllSettled s h
      (λ w files at c. sync_karyawan-AllSettled (client_source x.upstream) x.world _ s.db h)
