-- ===== src/Sync/Steps/Tests.antt =====
-- A pass over two rows, killed after four calls.
use gateway_login.Base.{◌≡◌, refl, none, false, [], ◌∷◌, codes, pos, sort_by, insert_by, text_eq}
use gateway_login.Vps.{no_faults, fetch_karyawan_updated_since, karyawan_query, scan_rows, row_le}
use gateway_login.Sync.Store.{Db, run_statement, insert_run, find_state, new_run, Tx}
use gateway_login.Sync.Rows.{marshals, raw_payload, null_str, null_time}
use gateway_login.Sync.Run.{
  World, start_run, watermark_of, watermark_in, watermark_or_epoch, read_watermark,
}
use gateway_login.Sync.Mirror.Coverage.{IsCovered}
use gateway_login.Sync.Steps.{pulling, more, advance, steps}
use gateway_login.Sync.Steps.Killed.{calls, killed}
use gateway_login.Sync.Steps.Mirrored.{killed-IsCovered}
use gateway_login.Samples.{
  text_le, staff, staff-IsTable, staff-IsCovered, empty_db, clock, andi, budi,
}

abbrev world : World
world = record { fault = λ c. none; clock = clock; run_id = 1 }

abbrev left : Db
left =
    killed world (codes "karyawan")
      (fetch_karyawan_updated_since text_le no_faults staff (record { batch_size = pos 10 })) 4
      empty_db

abbrev tx : Tx
tx = record {
  tables = record { runs = new_run 1 (codes "karyawan") (clock start_run) ∷ []; states = [] };
  aborted = false;
}

stops :
    calls world
      (codes "karyawan")
      (fetch_karyawan_updated_since text_le no_faults staff (record { batch_size = pos 10 }))
      4
      empty_db
    ≡ (more (pulling 1 (budi ∷ []) 1 andi.updated_at tx), left)
unfolding killed steps advance run_statement insert_run read_watermark watermark_in
    watermark_or_epoch find_state fetch_karyawan_updated_since karyawan_query scan_rows row_le
    sort_by insert_by text_eq marshals raw_payload null_str null_time
stops = refl

killed-IsCovered_example :
    (watermark_of (codes "karyawan") left ≡ watermark_of (codes "karyawan") empty_db)
    × IsCovered staff (watermark_of (codes "karyawan") empty_db) left.karyawan
killed-IsCovered_example =
    killed-IsCovered text_le staff no_faults (record { batch_size = pos 10 }) world
      (codes "karyawan") 4 empty_db left (pulling 1 (budi ∷ []) 1 andi.updated_at tx) staff-IsTable
      staff-IsCovered stops
