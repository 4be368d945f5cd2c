-- ===== src/Sync/Mirror.antt =====
-- What the table `karyawan` holds of the fetched rows after the loop of SyncKaryawan.
pub mod Coverage
pub mod Skips
use mathlib.Core.List.{Memᴰ}
use mathlib.Core.List.Memᴰ
use gateway_login.Base.{
  ℕ, ◌+◌, ◌≡◌, ◌≢◌, refl, sym, ap, ◌∙◌, Bool, true, false, Option, none, some, List, [], ◌∷◌, Text,
  text_eq, text_eq_iff, text_eq_refl, ◌⊎◌, inl, inr, arith, Bool-cases, if◌then◌else◌,
}
use gateway_login.Postgres.{Time}
use gateway_login.Karyawan.Table.{Record, inserted, upsert, find}
use gateway_login.Karyawan.Table.Laws.{find-upsert}
use gateway_login.Vps.{KaryawanRow}
use gateway_login.Sync.Run.{World, upsert_row}
use gateway_login.Sync.Rows.{to_karyawan}
use gateway_login.Sync.Watermark.{upserts}

-- The mirror holds the row, as it was stored at some time.
pub record IsMirrored (t : List Record) (r : KaryawanRow) : Type 0 where
  pub at : Time
  pub there : find r.nik_hris t ≡ some (inserted at (to_karyawan r))

-- The rows are one table's: NIK_HRIS is its key.
abbrev pub IsTable : List KaryawanRow → Type 0
IsTable rows = (a b : KaryawanRow) → Memᴰ a rows → Memᴰ b rows → a.nik_hris ≡ b.nik_hris → a ≡ b

nik_hris-to_karyawan : (r : KaryawanRow) → (to_karyawan r).nik_hris ≡ r.nik_hris
unfolding to_karyawan
nik_hris-to_karyawan r = refl

find-upsert_row :
    (at : Time) (x : KaryawanRow) (t : List Record) (nik : Text)
    → find nik (upsert at (to_karyawan x) t)
      ≡ (if text_eq x.nik_hris nik then some (inserted at (to_karyawan x)) else find nik t)
find-upsert_row at x t nik =
    find-upsert at (to_karyawan x) t nik
    ∙ ap (λ n. if text_eq n nik then some (inserted at (to_karyawan x)) else find nik t)
        (nik_hris-to_karyawan x)

upsert-IsMirrored_self :
    (at : Time) (r : KaryawanRow) (t : List Record) → IsMirrored (upsert at (to_karyawan r) t) r
upsert-IsMirrored_self at r t = record {
  at = at;
  there = rw (find-upsert_row at r t r.nik_hris, text_eq_refl r.nik_hris);
}

-- An upsert of a row keeps what is mirrored, if the two rows agree where their keys do.
pub upsert-IsMirrored :
    (at : Time) (x r : KaryawanRow) (t : List Record)
    → (x.nik_hris ≡ r.nik_hris → r ≡ x)
    → IsMirrored t r
    → IsMirrored (upsert at (to_karyawan x) t) r
upsert-IsMirrored at x r t agree m = elim (Bool-cases (text_eq x.nik_hris r.nik_hris)) [
  | inl same ↦
      rw (agree ((text_eq_iff x.nik_hris r.nik_hris).0 same)) (upsert-IsMirrored_self at x t)
  | inr other ↦ record { at = m.at; there = rw (find-upsert_row at x t r.nik_hris, other) m.there }
]

module _ (w : World) where
  pub upserts-IsMirrored_old :
      (i : ℕ) (rows : List KaryawanRow) (t : List Record) (r : KaryawanRow)
      → ((x : KaryawanRow) → Memᴰ x rows → x.nik_hris ≡ r.nik_hris → r ≡ x)
      → IsMirrored t r
      → IsMirrored (upserts w i rows t) r
  unfolding upserts
  upserts-IsMirrored_old i [] t r agree m = m
  upserts-IsMirrored_old i (x ∷ xs) t r agree m =
      upserts-IsMirrored_old (i + 1) xs _ r (λ y l. agree y (Memᴰ.tail l))
        (upsert-IsMirrored _ x r t (agree x (Memᴰ.head refl)) m)

  pub upserts-IsMirrored :
      (i : ℕ) (rows : List KaryawanRow) (t : List Record) (r : KaryawanRow)
      → ((x : KaryawanRow) → Memᴰ x rows → x.nik_hris ≡ r.nik_hris → r ≡ x)
      → Memᴰ r rows
      → IsMirrored (upserts w i rows t) r
  unfolding upserts
  upserts-IsMirrored i (x ∷ xs) t r agree (Memᴰ.head e) =
      upserts-IsMirrored_old (i + 1) xs _ r (λ y l. agree y (Memᴰ.tail l))
        (rw e (upsert-IsMirrored_self _ x t))
  upserts-IsMirrored i (x ∷ xs) t r agree (Memᴰ.tail l) =
      upserts-IsMirrored (i + 1) xs _ r (λ y k. agree y (Memᴰ.tail k)) l
  upserts-IsMirrored i [] t r agree l = absurd (Memᴰ.not-nil l)
