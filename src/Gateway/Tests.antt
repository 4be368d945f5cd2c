-- ===== src/Gateway/Tests.antt =====
-- A client asks for a row after a pass.
use mathlib.Core.List.{Memᴰ}
use gateway_login.Base.{◌≡◌, refl, none, codes, arith, length-select, ltb}
use gateway_login.Sync.Run.{watermark_of}
use gateway_login.Sync.Mirror.Coverage.{IsCleanCut-of_small}
use gateway_login.Sync.Progress.{passes}
use gateway_login.Api.View.{view_body}
use gateway_login.Api.Handlers.{handle_get}
use gateway_login.Gateway.{view_of, handle_get-passes}
use gateway_login.Samples.{
  text_le, budi, staff, staff-IsTable, staff-Marshals, empty_db, clock, syncer, staff-IsCovered,
}

handle_get-passes_example :
    handle_get none
      (passes text_le staff (λ i. clock) (λ i. i) (syncer 500) 2 0 empty_db).karyawan
      (codes "k2")
    ≡ record { status = 200; body = view_body (view_of budi) }
handle_get-passes_example =
    handle_get-passes text_le staff (λ i. clock) (λ i. i) (syncer 500) 2 empty_db budi staff-IsTable
      staff-Marshals (omega arith)
      (λ since. IsCleanCut-of_small text_le staff since 500 (omega arith))
      (length-select (λ r. ltb (watermark_of (codes "karyawan") empty_db) r.updated_at) staff)
      staff-IsCovered (Memᴰ.tail (Memᴰ.head refl)) (cc)
