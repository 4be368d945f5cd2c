-- ===== src/Gateway.antt =====
-- From the VPS to a client: what the API answers after the passes of internal/sync/sync.go.
mod Tests
pub mod Moments
mod MomentTests
use mathlib.Core.Option
use mathlib.Core.List.{Memᴰ}
use gateway_login.Base.{
  ℕ, ◌≤◌, ◌-◌, ◌%◌, ◌/◌, arith, Bool-cases, inl, inr, ◌<◌, ◌≡◌, ◌≢◌, refl, sym, ap, ◌∙◌, Bool, true,
  false, Option, none, some, List, [], ◌∷◌, Text, codes, is_empty, if◌then◌else◌, pos_part, Result,
  ok, ℤ,
}
use gateway_login.Postgres.{day, Time, date_of}
use gateway_login.Karyawan.Table.{Record, inserted, find, scanned, get_by_nik}
use gateway_login.Vps.{NullTime, NullString, KaryawanRow, Client, Faults}
use gateway_login.Sync.Store.{Db}
use gateway_login.Sync.Run.{World, Call, Syncer, watermark_of}
use gateway_login.Sync.Rows.{null_str, null_time_ptr, to_karyawan}
use gateway_login.Sync.Mirror.{IsMirrored, IsTable}
use gateway_login.Sync.Mirror.Coverage.{IsCovered, IsCleanCut}
use gateway_login.Sync.Progress.{Marshals, remaining, passes, passes_complete}
use gateway_login.Sync.Interleaving.{Turn, System, Reach}
use gateway_login.Sync.Interleaving.Covered.{over_vps, AreClean, Reach-IsComplete}
use gateway_login.Api.Date.{format_day, format_date}
use gateway_login.Api.View.{KaryawanView, to_view, Response, view_body}
use gateway_login.Api.Handlers.{handle_get, get_response}

abbrev text_of : NullString → Text
text_of s = if s.valid then s.string else []

abbrev date_text : NullTime → Option Text
date_text t = if t.valid then some (format_date t.time) else none

-- What a client is to see of a row of the VPS.
abbrev pub view_of : KaryawanRow → KaryawanView
view_of r = record {
  nik_hris = r.nik_hris;
  nik_santos = text_of r.nik_santos;
  nama_karyawan = r.nama_karyawan;
  nama_departemen = text_of r.nama_departemen;
  nama_jabatan = text_of r.nama_jabatan;
  tgl_bergabung = date_text r.tgl_bergabung;
  tgl_keluar = date_text r.tgl_keluar;
  lokasi = text_of r.lokasi;
  gender = text_of r.gender;
}

-- A date is shown as the day of the time in the VPS.
format_date-date_of : (t : Time) → format_date (date_of t) ≡ format_date t
unfolding format_date
format_date-date_of t =
    let same_day : (t - t % day) / day ≡ t / day = omega arith in ap format_day same_day

date_text-null_time_ptr :
    (t : NullTime) → Option.map format_date (Option.map date_of (null_time_ptr t)) ≡ date_text t
unfolding null_time_ptr
date_text-null_time_ptr t = elim (Bool-cases t.valid) [
  | inl valid ↦ rw valid (ap some (format_date-date_of t.time))
  | inr null ↦ rw null
]

view-inserted :
    (at : Time) (r : KaryawanRow) → to_view (scanned (inserted at (to_karyawan r))) ≡ view_of r
unfolding to_view scanned inserted to_karyawan null_str null_time_ptr
view-inserted at r = λ i. record (view_of r) {
  tgl_bergabung = date_text-null_time_ptr r.tgl_bergabung i;
  tgl_keluar = date_text-null_time_ptr r.tgl_keluar i;
}

handle_get-find :
    (t : List Record) (nik : Text) (x : Record)
    → nik ≢ []
    → find nik t ≡ some x
    → handle_get none t nik ≡ record { status = 200; body = view_body (to_view (scanned x)) }
unfolding handle_get get_by_nik get_response
handle_get-find t [] x given e = absurd (given refl)
handle_get-find t (c ∷ s) x given e = rw e

-- A row in the mirror is what GET answers.
pub handle_get-IsMirrored :
    (t : List Record) (r : KaryawanRow)
    → r.nik_hris ≢ []
    → IsMirrored t r
    → handle_get none t r.nik_hris ≡ record { status = 200; body = view_body (view_of r) }
handle_get-IsMirrored t r given m =
    handle_get-find t r.nik_hris (inserted m.at (to_karyawan r)) given m.there
    ∙ ap (λ v. record { status = 200; body = view_body v }) (view-inserted m.at r)

module _ (le : Text → Text → Bool) (table : List KaryawanRow) (clocks : ℕ → Call → Time)
    (ids : ℕ → ℕ) (s : Syncer Client) where
  -- Let NIK_HRIS be a key of the VPS's table, no time in it past the year 9999, the LIMIT positive
  -- and never cutting through rows of one time, and the mirror complete up to the watermark. After
  -- as many passes without a fault as there are rows past the watermark, or more, GET answers for
  -- each row that has a key with its columns, NULL as an empty text or no date, and the dates
  -- without their time of day.
  pub handle_get-passes :
      (n : ℕ) (db : Db) (r : KaryawanRow)
      → IsTable table
      → Marshals table
      → 0 < pos_part s.src.batch_size
      → ((since : Time) → IsCleanCut le table since (pos_part s.src.batch_size))
      → remaining (watermark_of s.resource db) table ≤ n
      → IsCovered table (watermark_of s.resource db) db.karyawan
      → Memᴰ r table
      → r.nik_hris ≢ []
      → handle_get none (passes le table clocks ids s n 0 db).karyawan r.nik_hris
        ≡ record { status = 200; body = view_body (view_of r) }
  handle_get-passes n db r keyed fit positive clean few old m given =
      handle_get-IsMirrored _ r given
        (passes_complete le table clocks ids s n 0 db r keyed fit positive clean few old m)

-- Let passes over one table of the VPS, of which NIK_HRIS is a key, take their steps in any order,
-- each with its own faults, clocks and LIMIT, and let their processes be killed between any two
-- calls. If no LIMIT cuts through rows of one time and the mirror is complete up to the watermark
-- at the start, then at every moment GET answers, for each row of the VPS that has a key and is not
-- newer than the watermark of the database, with its columns, NULL as an empty text or no date, and
-- the dates without their time of day.
pub handle_get-Reach :
    (le : Text → Text → Bool) (table : List KaryawanRow) (res : Text) (faults : ℕ → Faults)
    (client : ℕ → Client) (batch : ℕ → ℤ) (world : ℕ → World) (db : Db) (log : List Turn)
    (s : System) (r : KaryawanRow)
    → IsTable table
    → AreClean le table res faults client batch world
    → IsCovered table (watermark_of res db) db.karyawan
    → Reach (over_vps le table res faults client batch world) db log s
    → Memᴰ r table
    → r.updated_at ≤ watermark_of res s.db
    → r.nik_hris ≢ []
    → handle_get none s.db.karyawan r.nik_hris
      ≡ record { status = 200; body = view_body (view_of r) }
handle_get-Reach le table res faults client batch world db log s r keyed clean old reached m bound
      given =
    handle_get-IsMirrored s.db.karyawan r given (
      Reach-IsComplete le table res faults client batch world db log s keyed clean old reached r m
        bound)
