-- ===== src/Sync/Tests.antt =====
-- Passes over concrete tables.
use mathlib.Core.List.{Memᴰ}
use mathlib.Core.List.Memᴰ
use gateway_login.Base.{
  pos, neg_i64, double_i64, wrap_i64, negsuc, ◌^◌, ◌-◌, ◌≤◌, ◌≡◌, refl, sym, ap, none, some, List,
  [], ◌∷◌, codes, ok, arith, take, drop, sort_by, insert_by, length-select, ltb,
}
use gateway_login.Postgres.{Time}
use gateway_login.Karyawan.Table.{find}
use gateway_login.Vps.{
  row_le, KaryawanRow, Client, no_faults, karyawan_query, fetch_karyawan_updated_since, scan_rows,
}
use gateway_login.Vps.Laws.{pending, length-pending}
use gateway_login.Sync.Store.{find_state, Db, new_run}
use gateway_login.Sync.Run.{
  World, Source, put_watermark, watermark_in, watermark_or_epoch, watermark_of, sync_karyawan,
}
use gateway_login.Sync.Cleanup.{cleanup_stale_runs, cutoff_of, add_duration}
use gateway_login.Sync.Watermark.{Kept, sync_karyawan-Kept}
use gateway_login.Sync.Runs.{Settled, sync_karyawan-Settled}
use gateway_login.Sync.Recovery.{Cleans, cleanup_stale_runs-Cleans, cleanup_stale_runs-twice}
use gateway_login.Sync.Mirror.{IsMirrored}
use gateway_login.Sync.Mirror.Skips.{sync_karyawan-skips}
use gateway_login.Sync.Mirror.Coverage.{
  IsCovered, IsCleanCut, IsCleanCut-of_small, vps, sync_karyawan-IsCovered, sync_karyawan_complete,
}
use gateway_login.Sync.Progress.{calm, passes, sync_karyawan-succeeds, passes_complete}
use gateway_login.Samples.{
  text_le, andi, budi, staff, apart, staff-IsTable, staff-Marshals, empty_db, clock, syncer,
  staff-IsCovered,
}

-- A pass whose update of `sync_state` fails.
abbrev faulty : World
faulty = record {
  fault = λ c. elim c [ put_watermark ↦ some (codes "connection reset") | _ ↦ none ];
  clock = clock;
  run_id = 1;
}

abbrev source : Source Client
source = vps text_le staff no_faults

abbrev mark : Time
mark = watermark_of (codes "karyawan") empty_db

sync_karyawan-Kept_example :
    Kept faulty
      (syncer 500).resource
      empty_db
      (source.fetch (syncer 500).src (watermark_of (syncer 500).resource empty_db))
      (sync_karyawan source faulty (syncer 500) empty_db)
sync_karyawan-Kept_example = sync_karyawan-Kept source faulty (syncer 500) empty_db

sync_karyawan-Settled_example :
    Settled empty_db.tables (sync_karyawan source faulty (syncer 500) empty_db).db.tables
sync_karyawan-Settled_example = sync_karyawan-Settled source faulty (syncer 500) empty_db

fetched :
    source.fetch (syncer 500).src (watermark_of (syncer 500).resource empty_db)
    ≡ ok (andi ∷ budi ∷ [])
unfolding fetch_karyawan_updated_since karyawan_query scan_rows sort_by insert_by watermark_in
    watermark_or_epoch row_le find_state
fetched = refl

calm_pass : (sync_karyawan source (calm clock 1) (syncer 500) empty_db).error ≡ none
calm_pass = sync_karyawan-succeeds clock 1 source (syncer 500) empty_db staff fetched staff-Marshals

sync_karyawan-succeeds_test :
    (sync_karyawan source (calm clock 1) (syncer 500) empty_db).error ≡ none
sync_karyawan-succeeds_test =
    sync_karyawan-succeeds clock 1 source (syncer 500) empty_db staff fetched staff-Marshals

small : (since : Time) → IsCleanCut text_le staff since 500
small since = IsCleanCut-of_small text_le staff since 500 (omega arith)

sync_karyawan-IsCovered_test :
    IsCovered staff
      (watermark_of
        (codes "karyawan")
        (sync_karyawan source (calm clock 1) (syncer 500) empty_db).db)
      (sync_karyawan source (calm clock 1) (syncer 500) empty_db).db.karyawan
sync_karyawan-IsCovered_test =
    sync_karyawan-IsCovered text_le staff no_faults (calm clock 1) (syncer 500) empty_db
      staff-IsTable (small mark) staff-IsCovered calm_pass

sync_karyawan_complete_test :
    IsMirrored (sync_karyawan source (calm clock 1) (syncer 500) empty_db).db.karyawan budi
sync_karyawan_complete_test =
    sync_karyawan_complete text_le staff no_faults (calm clock 1) (syncer 500) empty_db budi
      staff-IsTable (omega (arith, length-pending text_le mark staff)) staff-IsCovered calm_pass
      (Memᴰ.tail (Memᴰ.head refl))

passes_complete_example :
    IsMirrored (passes text_le staff (λ i. clock) (λ i. i) (syncer 500) 2 0 empty_db).karyawan andi
passes_complete_example =
    passes_complete text_le staff (λ i. clock) (λ i. i) (syncer 500) 2 0 empty_db andi staff-IsTable
      staff-Marshals (omega arith) small (length-select (λ r. ltb mark r.updated_at) staff)
      staff-IsCovered (Memᴰ.head refl)

-- A LIMIT of one row cuts between two rows of one time.
fetched_one :
    source.fetch (syncer 1).src (watermark_of (syncer 1).resource empty_db) ≡ ok (andi ∷ [])
unfolding fetch_karyawan_updated_since karyawan_query scan_rows sort_by insert_by watermark_in
    watermark_or_epoch row_le find_state
fetched_one = refl

first : Memᴰ andi (take 1 (pending text_le mark staff))
unfolding sort_by insert_by watermark_in watermark_or_epoch row_le find_state
first = Memᴰ.head refl

second : Memᴰ budi (drop 1 (pending text_le mark staff))
unfolding sort_by insert_by watermark_in watermark_or_epoch row_le find_state
second = Memᴰ.head refl

not_first : ¬ Memᴰ budi (take 1 (pending text_le mark staff))
unfolding sort_by insert_by watermark_in watermark_or_epoch row_le find_state
not_first l = apart (sym (ap (λ (r : KaryawanRow). r.nik_hris) (Memᴰ.eq_of_singleton l)))

sync_karyawan-skips_example :
    (find budi.nik_hris (sync_karyawan source (calm clock 1) (syncer 1) empty_db).db.karyawan
      ≡ find budi.nik_hris empty_db.karyawan)
    × ((c : Client) (since : Time) (rows : List KaryawanRow)
        → watermark_of
            (codes "karyawan")
            (sync_karyawan source (calm clock 1) (syncer 1) empty_db).db
          ≤ since
        → fetch_karyawan_updated_since text_le no_faults staff c since ≡ ok rows
        → ¬ Memᴰ budi rows)
sync_karyawan-skips_example =
    sync_karyawan-skips text_le staff no_faults (calm clock 1) (syncer 1) empty_db andi budi
      staff-IsTable first second not_first refl
      (sync_karyawan-succeeds clock 1 source (syncer 1) empty_db (andi ∷ []) fetched_one
        (λ r l. staff-Marshals r (Memᴰ.append_left (budi ∷ []) l)))

-- Two rows of `sync_runs`, of which the first is stale.
abbrev runs_db : Db
runs_db = record empty_db {
  tables = record {
    runs = new_run 1 (codes "karyawan") 5 ∷ new_run 2 (codes "karyawan") 95 ∷ [];
    states = [];
  };
}

abbrev cleaned : Db
cleaned = (cleanup_stale_runs none (codes "karyawan") (pos 60000) 100 101 runs_db).1

cleanup_stale_runs-Cleans_example : Cleans (codes "karyawan") 60000 100 101 runs_db
cleanup_stale_runs-Cleans_example =
    cleanup_stale_runs-Cleans (codes "karyawan") 60000 100 101 runs_db

cleanup_stale_runs-twice_test :
    (cleanup_stale_runs none (codes "karyawan") (pos 60000) 100 101 cleaned ≡ (ok 0, cleaned))
    × (cleaned.karyawan ≡ runs_db.karyawan)
    × (cleaned.tables.states ≡ runs_db.tables.states)
cleanup_stale_runs-twice_test =
    cleanup_stale_runs-twice (codes "karyawan") (pos 60000) 100 101 runs_db

-- Twice 2 ^ 62 wraps around to the least integer, which is its own negation.
double_wraps : neg_i64 (double_i64 (pos (2 ^ 62))) ≡ negsuc (2 ^ 63 - 1)
unfolding double_i64 wrap_i64 neg_i64
double_wraps = refl

double_of_negative : double_i64 (negsuc 4) ≡ negsuc 9
unfolding double_i64 wrap_i64
double_of_negative = refl

-- Less than a microsecond is cut off.
cutoff_cuts : cutoff_of 100 (pos 1) ≡ 99
unfolding cutoff_of add_duration neg_i64
cutoff_cuts = refl
