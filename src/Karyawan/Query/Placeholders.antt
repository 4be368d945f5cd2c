-- ===== src/Karyawan/Query/Placeholders.antt =====
-- The placeholders of the conditions that `Repo.List` builds, against the number of arguments.
use gateway_login.Base.{
  ℕ, suc, ◌≡◌, refl, Bool, true, false, none, some, List, [], ◌∷◌, ◌++◌, Text, length, arith,
  length-append,
}
use gateway_login.Karyawan.{Filter}
use gateway_login.Karyawan.Query.{
  Cond, equals, ilikes, keluar_is_null, keluar_is_not_null, nil, Builder, empty, add, add_text,
  add_status, build_text, build, containing, nama_karyawan, nama_departemen, nama_jabatan, lokasi,
  nik_santos, nik_hris, placeholder, larger, parameters,
}

-- The highest placeholder is that of the last argument.
abbrev pub IsNumbered : Builder → Type 0
IsNumbered b = parameters b.conds ≡ length b.args

larger-zero : (a : ℕ) → larger a 0 ≡ a
larger-zero a = ground arith

larger_assoc : (a b c : ℕ) → larger a (larger b c) ≡ larger (larger a b) c
larger_assoc a b c = ground arith

parameters-append :
    (cs : List Cond) (c : Cond) → parameters (cs ++ c ∷ []) ≡ larger (parameters cs) (placeholder c)
unfolding parameters
parameters-append [] c = ground arith
parameters-append (d ∷ cs) c =
    rw (parameters-append cs c) (larger_assoc (placeholder d) (parameters cs) (placeholder c))

-- A clause whose placeholder is its own number.
add_text-IsNumbered :
    (field : Text) (clause : ℕ → Cond) (val : Text) (b : Builder)
    → ((n : ℕ) → placeholder (clause n) ≡ n)
    → IsNumbered b
    → IsNumbered (add_text field clause val b)
unfolding add_text add
add_text-IsNumbered [] clause val b own h = h
add_text-IsNumbered (c ∷ s) clause val b own h =
    rw (parameters-append, own, h, length-append) (ground arith)

IsNumbered-empty : IsNumbered empty
unfolding parameters
IsNumbered-empty = refl

pub build_text-IsNumbered : (f : Filter) → IsNumbered (build_text f)
unfolding build_text
build_text-IsNumbered f =
    add_text-IsNumbered f.lokasi (equals lokasi) f.lokasi _ (λ n. refl)
      (add_text-IsNumbered f.jabatan (ilikes nama_jabatan) (containing f.jabatan) _ (λ n. refl)
        (add_text-IsNumbered f.departemen (ilikes nama_departemen) (containing f.departemen) _
          (λ n. refl)
          (add_text-IsNumbered f.nama_karyawan (ilikes nama_karyawan) (containing f.nama_karyawan) _
            (λ n. refl)
            (add_text-IsNumbered f.nik_santos (equals nik_santos) f.nik_santos _ (λ n. refl)
              (add_text-IsNumbered f.nik_hris (equals nik_hris) f.nik_hris empty (λ n. refl)
                IsNumbered-empty)))))

-- Without a status filter the conditions have as many parameters as arguments.
pub build-IsNumbered : (f : Filter) → f.status_aktif ≡ none → IsNumbered (build f)
unfolding build add_status
build-IsNumbered f h = simp h (build_text-IsNumbered f)

-- A status filter adds an argument for which its clause has no placeholder.
pub build-parameters_status :
    (f : Filter) (s : Bool)
    → f.status_aktif ≡ some s
    → length (build f).args ≡ suc (parameters (build f).conds)
unfolding build add_status add
build-parameters_status f s h = simp h (both s)
  where
    b : Builder
    b = build_text f

    count : length (b.args ++ nil ∷ []) ≡ suc (parameters b.conds)
    count = omega (arith, length-append b.args (nil ∷ []), build_text-IsNumbered f)

    both :
        (s : Bool)
        → length (add_status (some s) b).args ≡ suc (parameters (add_status (some s) b).conds)
    both true = rw (parameters-append b.conds keluar_is_null, larger-zero) count
    both false = rw (parameters-append b.conds keluar_is_not_null, larger-zero) count
