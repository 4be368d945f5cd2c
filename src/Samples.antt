-- ===== src/Samples.antt =====
-- Data that the tests share: a database with simple comparisons, rows of both databases, and keys.
use gateway_login.Base.{
  ℕ, ◌+◌, ◌≢◌, refl, sym, ap, ◌∙◌, Bool, true, false, ◌&&◌, ◌||◌, none, some, List, [], ◌∷◌, Text,
  codes, text_eq, text_eq_iff, ltb, ◌==◌, arith, not, select, pos, if◌then◌else◌,
}
use gateway_login.Postgres.{Time, seconds, unix_epoch, Postgres, CountsArguments}
use gateway_login.Karyawan.{Karyawan, Filter}
use mathlib.Core.List.{Memᴰ}
use mathlib.Core.List.Memᴰ
use gateway_login.Sync.Store.{Db, find_state}
use gateway_login.Sync.Run.{Call, Syncer, watermark_of, watermark_in, watermark_or_epoch}
use gateway_login.Sync.Rows.{marshals, raw_payload, null_str, null_time}
use gateway_login.Sync.Mirror.{IsTable}
use gateway_login.Sync.Mirror.Coverage.{IsCovered}
use gateway_login.Sync.Progress.{Marshals}
use gateway_login.Vps.{Client, NullString, NullTime, KaryawanRow}
use gateway_login.ApiKey.{KeyRow}
use gateway_login.RateLimit.{Limiter}

-- The order of the bytes.
abbrev pub text_le : Text → Text → Bool
text_le [] t = true
text_le (c ∷ s) [] = false
text_le (c ∷ s) (d ∷ t) = let rest = text_le s t in if c == d then rest else ltb c d

-- A pattern between two percent signs; the tests' names are in lower case.
abbrev starts : Text → Text → Bool
starts [] s = true
starts (c ∷ p) [] = false
starts (c ∷ p) (d ∷ s) = c == d && starts p s

abbrev occurs : Text → Text → Bool
occurs p [] = starts p []
occurs p (c ∷ s) = starts p (c ∷ s) || occurs p s

abbrev like : Text → Text → Bool
like v pattern = occurs (select (λ c. not (c == b'%')) pattern) v

abbrev pub postgres : Postgres
postgres = record { ilike = like; collate_le = text_le; sends = λ n m. n == m }

pub postgres-CountsArguments : CountsArguments postgres
postgres-CountsArguments = record {
  equal = λ n. ground arith;
  unequal = λ n m h. ground (arith, h);
}

-- Two rows of the VPS, one with a date and one with columns that are NULL.
abbrev null_string : NullString
null_string = record { string = []; valid = false }

abbrev some_string : Text → NullString
some_string s = record { string = s; valid = true }

abbrev null_date : NullTime
null_date = record { time = 0; valid = false }

abbrev pub joined : Time
joined = unix_epoch + seconds 86401

abbrev pub vps_row : Text → Text → Time → KaryawanRow
vps_row nik name updated_at = record {
  nik_hris = nik;
  nik_santos = null_string;
  nama_karyawan = name;
  nama_departemen = some_string (codes "it");
  nama_jabatan = null_string;
  tgl_bergabung = record { time = joined; valid = true };
  tgl_keluar = null_date;
  lokasi = some_string (codes "jakarta");
  gender = null_string;
  updated_at = updated_at;
}

abbrev pub andi : KaryawanRow
andi = vps_row (codes "k1") (codes "andi") (unix_epoch + 5)

abbrev pub budi : KaryawanRow
budi = vps_row (codes "k2") (codes "budi") (unix_epoch + 5)

-- A filter that asks for nothing.
abbrev pub no_filter : Filter
no_filter = record {
  nik_hris = [];
  nik_santos = [];
  nama_karyawan = [];
  departemen = [];
  jabatan = [];
  lokasi = [];
  status_aktif = none;
  limit = pos 0;
  offset = pos 0;
}

abbrev pub employee : Text → Text → Karyawan
employee nik name = record {
  nik_hris = nik;
  nik_santos = [];
  nama_karyawan = name;
  nama_departemen = codes "it";
  nama_jabatan = [];
  tgl_bergabung = some joined;
  tgl_keluar = none;
  lokasi = codes "jakarta";
  gender = [];
  source_updated_at = some unix_epoch;
  synced_at = 0;
  raw_payload = none;
}

abbrev pub key_row : Text → Text → Bool → KeyRow
key_row id hash revoked = record {
  id = id;
  key_hash = hash;
  description = none;
  created_at = 0;
  last_used_at = none;
  revoked = revoked;
}

abbrev pub no_limiter : Limiter
no_limiter = record { counters = []; script_errors = 0; reply_errors = 0; denied = 0 }

-- The table of the VPS, and a gateway that has not fetched anything.
abbrev pub staff : List KaryawanRow
staff = andi ∷ budi ∷ []

abbrev pub nik : KaryawanRow → Text
nik r = r.nik_hris

pub apart : nik andi ≢ nik budi
unfolding text_eq
apart e = absurd (cc ((text_eq_iff (nik andi) (nik budi)).1 e))

pub staff-IsTable : IsTable staff
staff-IsTable a b (Memᴰ.head p) (Memᴰ.head q) e = p ∙ sym q
staff-IsTable a b (Memᴰ.head p) (Memᴰ.tail l) e =
    absurd (apart (sym (ap nik p) ∙ e ∙ ap nik (Memᴰ.eq_of_singleton l)))
staff-IsTable a b (Memᴰ.tail k) (Memᴰ.head q) e =
    absurd (apart (sym (ap nik q) ∙ sym e ∙ ap nik (Memᴰ.eq_of_singleton k)))
staff-IsTable a b (Memᴰ.tail k) (Memᴰ.tail l) e =
    Memᴰ.eq_of_singleton k ∙ sym (Memᴰ.eq_of_singleton l)

pub staff-Marshals : Marshals staff
unfolding marshals raw_payload null_str null_time
staff-Marshals r (Memᴰ.head e) = rw e refl
staff-Marshals r (Memᴰ.tail l) = rw (Memᴰ.eq_of_singleton l) refl

abbrev pub empty_db : Db
empty_db = record { karyawan = []; tables = record { runs = []; states = [] } }

abbrev pub clock : Call → Time
clock c = unix_epoch + seconds 90000

abbrev pub syncer : ℕ → Syncer Client
syncer n = record {
  src = record { batch_size = pos n };
  resource = codes "karyawan";
  batch = pos n;
}

pub staff-IsCovered : IsCovered staff (watermark_of (codes "karyawan") empty_db) empty_db.karyawan
unfolding watermark_in watermark_or_epoch find_state
staff-IsCovered r (Memᴰ.head e) old =
    absurd (omega (arith, old, ap (λ (x : KaryawanRow). x.updated_at) e))
staff-IsCovered r (Memᴰ.tail l) old =
    absurd (omega (arith, old, ap (λ (x : KaryawanRow). x.updated_at) (Memᴰ.eq_of_singleton l)))
