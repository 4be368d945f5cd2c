-- ===== src/Karyawan/Table/Laws.antt =====
-- What an upsert changes, and what `GetByNIK` reads back.
use mathlib.Core.Option
use mathlib.Core.Path.{subst}
use gateway_login.Base.{
  ap, text_eq_comm, ◌≡◌, refl, inl, inr, none, some, List, [], ◌∷◌, Text, text_eq, text_eq_iff, ok,
  if◌then◌else◌, arith, Bool-cases,
}
use gateway_login.Postgres.{Time, date_of}
use gateway_login.Karyawan.{Karyawan}
use gateway_login.Karyawan.Table.{
  Record, payload_or_empty, inserted, updated, upsert, find, scanned, get_by_nik,
}

-- An update sets every column but the key, so it leaves what an insertion would have left.
updated-eq-inserted :
    (now : Time) (k : Karyawan) (r : Record)
    → r.nik_hris ≡ k.nik_hris
    → updated now (inserted now k) r ≡ inserted now k
unfolding updated inserted
updated-eq-inserted now k r e = λ i. record (inserted now k) { nik_hris = e i }

nik_hris-inserted : (now : Time) (k : Karyawan) → (inserted now k).nik_hris ≡ k.nik_hris
unfolding inserted
nik_hris-inserted now k = refl

-- A row found after an upsert: the new one under its key, and the old one under any other key.
pub find-upsert :
    (now : Time) (k : Karyawan) (t : List Record) (nik : Text)
    → find nik (upsert now k t)
      ≡ (if text_eq k.nik_hris nik then some (inserted now k) else find nik t)
unfolding find upsert
find-upsert now k [] nik = rw (nik_hris-inserted now k)
find-upsert now k (r ∷ rs) nik = elim (Bool-cases (text_eq r.nik_hris k.nik_hris)) [
  | inl same ↦
      let e = (text_eq_iff r.nik_hris k.nik_hris).0 same in
      rw (same, updated-eq-inserted now k r e, nik_hris-inserted now k)
        (ground (arith, ap (λ n. text_eq n nik) e))
  | inr other ↦ rw other (
      ground (
        arith,
        find-upsert now k rs nik,
        text_eq_iff r.nik_hris nik,
        text_eq_iff k.nik_hris nik,
        text_eq_iff r.nik_hris k.nik_hris,
      ))
]

-- What the program reads back of an employee that it stored at `now`: dates lose their time of day,
-- and an empty payload is an empty object.
abbrev pub stored : Time → Karyawan → Karyawan
stored now k = record k {
  tgl_bergabung = Option.map (λ t. date_of t) k.tgl_bergabung;
  tgl_keluar = Option.map (λ t. date_of t) k.tgl_keluar;
  synced_at = now;
  raw_payload = some (payload_or_empty k.raw_payload);
}

scanned-inserted : (now : Time) (k : Karyawan) → scanned (inserted now k) ≡ stored now k
unfolding scanned inserted
scanned-inserted now k = refl

-- After an upsert, GetByNIK returns the stored employee under its own key, and under any other key
-- what it returned before.
pub get_by_nik-upsert :
    (now : Time) (k : Karyawan) (t : List Record) (nik : Text)
    → get_by_nik none nik (upsert now k t)
      ≡ (if text_eq k.nik_hris nik then ok (stored now k) else get_by_nik none nik t)
unfolding get_by_nik
get_by_nik-upsert now k t nik =
    rw (find-upsert now k t nik) (elim (Bool-cases (text_eq k.nik_hris nik)) [
      | inl same ↦ rw (same, scanned-inserted now k)
      | inr other ↦ rw other
    ])

-- The PRIMARY KEY of the table.
abbrev pub IsKeyed : List Record → Type 0
IsKeyed [] = Unit
IsKeyed (r ∷ rs) = (find r.nik_hris rs ≡ none) × IsKeyed rs

-- An upsert keeps the keys distinct.
pub upsert-IsKeyed :
    (now : Time) (k : Karyawan) (t : List Record) → IsKeyed t → IsKeyed (upsert now k t)
unfolding upsert find
upsert-IsKeyed now k [] h = (refl, tt)
upsert-IsKeyed now k (r ∷ rs) (fresh, h) = elim (Bool-cases (text_eq r.nik_hris k.nik_hris)) [
  | inl same ↦
      let e = (text_eq_iff r.nik_hris k.nik_hris).0 same in
      rw (same, updated-eq-inserted now k r e, nik_hris-inserted now k)
        ((subst (λ n. find n rs ≡ none) e fresh), h)
  | inr other ↦ rw other (
    rw (find-upsert now k rs r.nik_hris, text_eq_comm k.nik_hris r.nik_hris, other) fresh,
    upsert-IsKeyed now k rs h,
  )
]
