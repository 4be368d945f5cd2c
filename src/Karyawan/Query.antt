-- ===== src/Karyawan/Query.antt =====
-- `Repo.List` of internal/karyawan/repo.go: the conditions and arguments that a filter adds, the
-- text of the two statements, and what they answer.
pub mod Placeholders
pub mod Page
pub mod Total
use gateway_login.Base.{
  ℕ, zero, suc, ◌+◌, ◌-◌, ◌≡◌, Bool, true, false, not, ◌&&◌, ◌||◌, Option, none, some, List, [],
  ◌∷◌, ◌++◌, map, Text, text_eq, codes, is_empty, Result, ok, err, map_err, ◌>>=◌, if◌then◌else◌,
  length, get_elem?, take, drop, select, sort_by, ltb, ◌==◌, ℤ, pos, negsuc, pos_part, ltb_ℤ, leb_ℤ,
}
use gateway_login.Decimal.{itoa}
use gateway_login.Postgres.{Time, Postgres}
use gateway_login.Karyawan.{Payload, Karyawan, Filter, RepoError, failed}
use gateway_login.Karyawan.Table.{Record, scanned}

pub data Column : Type 0 where
  nik_hris nik_santos nama_karyawan nama_departemen nama_jabatan lokasi : Column

-- A clause of the WHERE list, with the number of its placeholder.
pub data Cond : Type 0 where
  equals : Column → ℕ → Cond
  ilikes : Column → ℕ → Cond
  keluar_is_null keluar_is_not_null : Cond

pub data Arg : Type 0 where
  text : Text → Arg
  int : ℤ → Arg
  nil : Arg

-- The variables `conds` and `args`.
pub record Builder : Type 0 where
  pub conds : List Cond
  pub args : List Arg

abbrev pub empty : Builder
empty = record { conds = []; args = [] }

-- The closure `add`: one clause and one argument more.
unfoldable pub add : Cond → Arg → Builder → Builder
add clause val b = record { conds = b.conds ++ clause ∷ []; args = b.args ++ val ∷ [] }

-- `if f.X != "" { add("x = $"+itoa(len(args)+1), …) }`
unfoldable pub add_text : Text → (ℕ → Cond) → Text → Builder → Builder
add_text field clause val b =
    if is_empty field then b else add (clause (length b.args + 1)) (text val) b

-- "%"+s+"%"
abbrev pub containing : Text → Text
containing s = b'%' ∷ s ++ b'%' ∷ []

unfoldable pub add_status : Option Bool → Builder → Builder
add_status none b = b
add_status (some true) b = add keluar_is_null nil b
add_status (some false) b = add keluar_is_not_null nil b

-- The six fields of text, in the order of the code.
unfoldable pub build_text : Filter → Builder
build_text f =
    let b1 = add_text f.nik_hris (equals nik_hris) f.nik_hris empty in
    let b2 = add_text f.nik_santos (equals nik_santos) f.nik_santos b1 in
    let b3 = add_text f.nama_karyawan (ilikes nama_karyawan) (containing f.nama_karyawan) b2 in
    let b4 = add_text f.departemen (ilikes nama_departemen) (containing f.departemen) b3 in
    let b5 = add_text f.jabatan (ilikes nama_jabatan) (containing f.jabatan) b4 in
    add_text f.lokasi (equals lokasi) f.lokasi b5

unfoldable pub build : Filter → Builder
build f = add_status f.status_aktif (build_text f)

-- The text of the statements.
abbrev column_name : Column → Text
column_name nik_hris = codes "nik_hris"
column_name nik_santos = codes "nik_santos"
column_name nama_karyawan = codes "nama_karyawan"
column_name nama_departemen = codes "nama_departemen"
column_name nama_jabatan = codes "nama_jabatan"
column_name lokasi = codes "lokasi"

unfoldable pub clause_text : Cond → Text
unfolding itoa
clause_text (equals c n) = column_name c ++ codes " = $" ++ itoa (pos n)
clause_text (ilikes c n) = column_name c ++ codes " ILIKE $" ++ itoa (pos n)
clause_text keluar_is_null = codes "tgl_keluar IS NULL"
clause_text keluar_is_not_null = codes "tgl_keluar IS NOT NULL"

-- strings.Join
join : Text → List Text → Text
join sep [] = []
join sep (s ∷ []) = s
join sep (s ∷ t ∷ ts) = s ++ sep ++ join sep (t ∷ ts)

where_text : List Cond → Text
unfolding join clause_text
where_text [] = []
where_text (c ∷ cs) = codes "WHERE " ++ join (codes " AND ") (map clause_text (c ∷ cs))

unfoldable pub count_text : Builder → Text
unfolding where_text
count_text b = codes "SELECT COUNT(*) FROM karyawan " ++ where_text b.conds

-- The end of the second statement, behind its column list.
unfoldable pub list_text : Builder → Text
unfolding where_text
list_text b =
    codes "FROM karyawan "
    ++ where_text b.conds
    ++ codes "\nORDER BY nik_hris ASC\nLIMIT $"
    ++ itoa (pos (length b.args + 1))
    ++ codes " OFFSET $"
    ++ itoa (pos (length b.args + 2))

-- The number of parameters of a statement: its highest placeholder.
abbrev pub placeholder : Cond → ℕ
placeholder (equals _ n) = n
placeholder (ilikes _ n) = n
placeholder keluar_is_null = 0
placeholder keluar_is_not_null = 0

abbrev pub larger : ℕ → ℕ → ℕ
larger a b = if ltb a b then b else a

unfoldable pub parameters : List Cond → ℕ
parameters [] = 0
parameters (c ∷ cs) = larger (placeholder c) (parameters cs)

-- A column's value, NULL being `none`.
abbrev pub cell : Column → Record → Option Text
cell nik_hris r = some r.nik_hris
cell nik_santos r = r.nik_santos
cell nama_karyawan r = some r.nama_karyawan
cell nama_departemen r = r.nama_departemen
cell nama_jabatan r = r.nama_jabatan
cell lokasi r = r.lokasi

-- A comparison with NULL, or with an argument that is no text, does not hold.
abbrev pub compares : (Text → Text → Bool) → Option Text → Option Arg → Bool
compares test (some v) (some (text t)) = test v t
compares test _ _ = false

abbrev is_null : Option Time → Bool
is_null none = true
is_null (some _) = false

-- What goes wrong with the two queries, other than their argument counts.
pub record Faults : Type 0 where
  pub count : Option Text
  pub query : Option Text
  -- the scan of the n-th row of the page
  pub scan : ℕ → Option Text
  -- rows.Err()
  pub rows : Option Text

abbrev pub mismatch : Text
mismatch = codes "mismatched param and argument count"

abbrev answer {ℓ} : {A : Type ℓ} → Option Text → Bool → A → Result Text A
answer (some e) sent a = err e
answer none false a = err mismatch
answer none true a = ok a

module _ (pg : Postgres) where
  unfoldable pub clause_holds : List Arg → Record → Cond → Bool
  clause_holds args r (equals c n) = compares text_eq (cell c r) (get_elem? args (n - 1))
  clause_holds args r (ilikes c n) = compares pg.ilike (cell c r) (get_elem? args (n - 1))
  clause_holds args r keluar_is_null = is_null r.tgl_keluar
  clause_holds args r keluar_is_not_null = not (is_null r.tgl_keluar)

  unfoldable pub where_holds : List Cond → List Arg → Record → Bool
  unfolding clause_holds
  where_holds [] args r = true
  where_holds (c ∷ cs) args r = clause_holds args r c && where_holds cs args r

  -- ORDER BY nik_hris ASC
  abbrev pub nik_le : Record → Record → Bool
  nik_le a b = pg.collate_le a.nik_hris b.nik_hris

  -- The LIMIT and OFFSET of the statement are its last two arguments.
  abbrev window : Option Arg → Option Arg → List Record → List Record
  window (some (int l)) (some (int o)) rows = take (pos_part l) (drop (pos_part o) rows)
  window _ _ rows = []

  -- QueryRow of the count: the driver sends it if the numbers agree.
  count_rows : Option Text → Builder → List Record → Result Text ℕ
  unfolding where_holds parameters
  count_rows fault b t =
      answer fault (pg.sends (parameters b.conds) (length b.args))
        (length (select (where_holds b.conds b.args) t))

  -- The second statement has two parameters more, and is sent with `append(args, limit, offset)`.
  query_rows : Option Text → Builder → ℤ → ℤ → List Record → Result Text (List Record)
  unfolding where_holds parameters
  query_rows fault b limit offset t =
      let args = b.args ++ int limit ∷ int offset ∷ [] in
      answer fault (pg.sends (larger (parameters b.conds) (length b.args + 2)) (length args)) (
        window (get_elem? args (length b.args)) (get_elem? args (length b.args + 1))
          (sort_by nik_le (select (where_holds b.conds args) t)))

  -- `for rows.Next() { … rows.Scan(…) … }`
  scan_rows : (ℕ → Option Text) → ℕ → List Record → Result Text (List Karyawan)
  scan_rows scan n [] = ok []
  scan_rows scan n (r ∷ rs) = elim (scan n) [
    | some e ↦ err e
    | none ↦ do ks ← scan_rows scan (n + 1) rs; ok (scanned r ∷ ks)
  ]

  -- The rows of the page, the total, and the error: `rows.Err()` comes beside the rows.
  unfoldable pub list : Faults → Filter → List Record → Result RepoError (List Karyawan × ℕ)
  unfolding count_rows query_rows scan_rows
  list faults f t =
      let limit = if leb_ℤ f.limit (pos 0) || ltb_ℤ (pos 500) f.limit then pos 50 else f.limit in
      let offset = if ltb_ℤ f.offset (pos 0) then pos 0 else f.offset in
      let b = build f in
      do
        total ← map_err (λ e. failed (codes "count: " ++ e)) (count_rows faults.count b t)
        rows ←
            map_err (λ e. failed (codes "list: " ++ e)) (query_rows faults.query b limit offset t)
        out ← map_err (λ e. failed (codes "scan list: " ++ e)) (scan_rows faults.scan 0 rows)
        elim faults.rows [ none ↦ ok (out, total) | some e ↦ err (failed e) ]
