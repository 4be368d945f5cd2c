-- ===== src/Karyawan/Query/Page.antt =====
-- `Repo.List` against its specification: the page of the rows that a filter asks for, and the
-- number of all of them.
use gateway_login.Base.{
  ℕ, zero, suc, ◌+◌, ◌-◌, ◌≡◌, refl, ap, Bool, true, false, ◌&&◌, ◌||◌, Option, none, some, List,
  [], ◌∷◌, ◌++◌, map, Text, is_empty, text_eq, if◌then◌else◌, length, arith, length-append,
  append_assoc, inl, inr, Option-cases, ◌≢◌, get_elem?, select, sort_by, take, drop, ℤ, pos, negsuc,
  pos_part, ltb_ℤ, leb_ℤ, codes, ok, err, ltb, fun_ext,
}
use mathlib.Core.List.{append-nil}
use mathlib.Core.Path.{subst}
use native.Mathlib.Numerals.{add-one}
use gateway_login.Postgres.{Postgres, CountsArguments}
use gateway_login.Karyawan.{Filter, failed}
use gateway_login.Karyawan.Table.{Record, scanned}
use gateway_login.Karyawan.Query.{
  Cond, equals, ilikes, Arg, text, int, Builder, empty, add, add_text, add_status, build_text,
  build, larger, parameters, containing, Column, nama_karyawan, nama_departemen, nama_jabatan,
  lokasi, nik_santos, nik_hris, cell, compares, clause_holds, where_holds, nik_le, Faults,
  count_rows, query_rows, scan_rows, list, mismatch,
}
use gateway_login.Karyawan.Query.Placeholders.{build-IsNumbered, build-parameters_status}

-- No fault but what the argument counts make.
abbrev pub no_faults : Faults
no_faults = record { count = none; query = none; scan = λ n. none; rows = none }

-- The limit and the offset in use.
abbrev pub page_limit : ℤ → ℕ
page_limit (pos zero) = 50
page_limit (pos (suc n)) = if ltb 500 (suc n) then 50 else suc n
page_limit (negsuc _) = 50

abbrev pub page_offset : ℤ → ℕ
page_offset (pos n) = n
page_offset (negsuc _) = 0

-- A column that is not NULL and passes the test.
abbrev pub asked : (Text → Bool) → Option Text → Bool
asked test none = false
asked test (some v) = test v

-- A field of the filter: left empty it asks for nothing.
abbrev pub asks : Text → (Text → Bool) → Option Text → Bool
asks field test v = is_empty field || asked test v

pos_part-limit :
    (l : ℤ) → pos_part (if leb_ℤ l (pos 0) || ltb_ℤ (pos 500) l then pos 50 else l) ≡ page_limit l
pos_part-limit (pos zero) = ground arith
pos_part-limit (pos (suc n)) = ground arith
pos_part-limit (negsuc n) = ground arith

pos_part-offset : (o : ℤ) → pos_part (if ltb_ℤ o (pos 0) then pos 0 else o) ≡ page_offset o
pos_part-offset (pos n) = ground arith
pos_part-offset (negsuc n) = ground arith

larger-add : (n : ℕ) → larger n (n + 2) ≡ n + 2
larger-add n = ground arith

module _ (pg : Postgres) where
  -- The rows that a filter with no status asks for.
  unfoldable pub matches : Filter → Record → Bool
  matches f r =
      asks f.nik_hris (λ v. text_eq v f.nik_hris) (some r.nik_hris)
      && asks f.nik_santos (λ v. text_eq v f.nik_santos) r.nik_santos
      && asks f.nama_karyawan (λ v. pg.ilike v (containing f.nama_karyawan)) (some r.nama_karyawan)
      && asks f.departemen (λ v. pg.ilike v (containing f.departemen)) r.nama_departemen
      && asks f.jabatan (λ v. pg.ilike v (containing f.jabatan)) r.nama_jabatan
      && asks f.lokasi (λ v. text_eq v f.lokasi) r.lokasi

  get_elem?-append_suc :
      (xs ys : List Arg) → get_elem? (xs ++ ys) (suc (length xs)) ≡ get_elem? ys 1
  get_elem?-append_suc [] ys = refl
  get_elem?-append_suc (x ∷ xs) ys = get_elem?-append_suc xs ys

  get_elem?-append_next : (xs ys : List Arg) → get_elem? (xs ++ ys) (length xs + 1) ≡ get_elem? ys 1
  get_elem?-append_next xs ys = rw (add-one (length xs)) (get_elem?-append_suc xs ys)

  -- The conditions built so far mean `m`, whatever arguments follow.
  abbrev Means : Record → Builder → Bool → Type 0
  Means r b m = (extra : List Arg) → where_holds pg b.conds (b.args ++ extra) r ≡ m

  where_holds-append :
      (cs : List Cond) (c : Cond) (args : List Arg) (r : Record)
      → where_holds pg (cs ++ c ∷ []) args r ≡ where_holds pg cs args r && clause_holds pg args r c
  unfolding where_holds
  where_holds-append [] c args r = ground arith
  where_holds-append (d ∷ cs) c args r = ground (arith, where_holds-append cs c args r)

  get_elem?-append : (xs ys : List Arg) → get_elem? (xs ++ ys) (length xs) ≡ get_elem? ys 0
  get_elem?-append [] ys = refl
  get_elem?-append (x ∷ xs) ys = get_elem?-append xs ys

  compares-text :
      (test : Text → Text → Bool) (v : Option Text) (t : Text)
      → compares test v (some (text t)) ≡ asked (λ x. test x t) v
  compares-text test none t = refl
  compares-text test (some v) t = refl

  module _ (r : Record) where
    -- A clause reads the argument of its placeholder.
    abbrev Reads : (ℕ → Cond) → Text → Bool → Type 0
    Reads clause val result =
        (n : ℕ) (args : List Arg)
        → get_elem? args n ≡ some (text val)
        → clause_holds pg args r (clause (n + 1)) ≡ result

    equals-Reads :
        (c : Column) (val : Text) → Reads (equals c) val (asked (λ v. text_eq v val) (cell c r))
    unfolding clause_holds
    equals-Reads c val n args e =
        let same : n + 1 - 1 ≡ n = omega arith in rw (same, e, compares-text)

    ilikes-Reads :
        (c : Column) (val : Text) → Reads (ilikes c) val (asked (λ v. pg.ilike v val) (cell c r))
    unfolding clause_holds
    ilikes-Reads c val n args e =
        let same : n + 1 - 1 ≡ n = omega arith in rw (same, e, compares-text)

    Means-empty : Means r empty true
    unfolding where_holds
    Means-empty extra = refl

    add_text-Means :
        (field : Text) (clause : ℕ → Cond) (val : Text) (result : Bool) (b : Builder) (m : Bool)
        → Reads clause val result
        → Means r b m
        → Means r (add_text field clause val b) (m && (is_empty field || result))
    unfolding add_text add
    add_text-Means [] clause val result b m reads h extra = ground (arith, h extra)
    add_text-Means (c ∷ s) clause val result b m reads h extra =
        rw (append_assoc, where_holds-append, h (text val ∷ extra))
          (ap (λ x. m && x) (reads (length b.args) _ (get_elem?-append b.args (text val ∷ extra))))

    build_text-Means : (f : Filter) → Means r (build_text f) (matches f r)
    unfolding build_text matches
    build_text-Means f =
        add_text-Means f.lokasi (equals lokasi) f.lokasi _ _ _ (equals-Reads lokasi f.lokasi) (
          add_text-Means f.jabatan (ilikes nama_jabatan) (containing f.jabatan) _ _ _
            (ilikes-Reads nama_jabatan (containing f.jabatan))
            (add_text-Means f.departemen (ilikes nama_departemen) (containing f.departemen) _ _ _
              (ilikes-Reads nama_departemen (containing f.departemen))
              (add_text-Means f.nama_karyawan (ilikes nama_karyawan) (containing f.nama_karyawan) _
                _ _ (ilikes-Reads nama_karyawan (containing f.nama_karyawan))
                (add_text-Means f.nik_santos (equals nik_santos) f.nik_santos _ _ _
                  (equals-Reads nik_santos f.nik_santos)
                  (add_text-Means f.nik_hris (equals nik_hris) f.nik_hris _ empty true
                    (equals-Reads nik_hris f.nik_hris) (λ extra. Means-empty extra))))))

  -- The page that a request for `limit` rows from `offset` shows, in the order of the keys.
  unfoldable pub page : Filter → List Record → List Record
  page f t =
      take (page_limit f.limit)
        (drop (page_offset f.offset) (sort_by (nik_le pg) (select (matches f) t)))

  scan_rows-none : (n : ℕ) (rs : List Record) → scan_rows pg (λ n. none) n rs ≡ ok (map scanned rs)
  unfolding scan_rows
  scan_rows-none n [] = refl
  scan_rows-none n (r ∷ rs) = rw (scan_rows-none (n + 1) rs)

  where_holds-build :
      (f : Filter) (extra : List Arg)
      → f.status_aktif ≡ none
      → where_holds pg (build f).conds ((build f).args ++ extra) ≡ matches f
  unfolding build add_status
  where_holds-build f extra h = fun_ext λ r. simp h (build_text-Means r f extra)

  where_holds-build_exact :
      (f : Filter)
      → f.status_aktif ≡ none
      → where_holds pg (build f).conds (build f).args ≡ matches f
  where_holds-build_exact f h =
      subst (λ args. where_holds pg (build f).conds args ≡ matches f) (append-nil (build f).args)
        (where_holds-build f [] h)

  module _ (counts : CountsArguments pg) (f : Filter) (t : List Record)
      (h : f.status_aktif ≡ none) where
    count_rows-ok : count_rows pg none (build f) t ≡ ok (length (select (matches f) t))
    unfolding count_rows
    count_rows-ok =
        rw (build-IsNumbered f h, counts.equal (length (build f).args), where_holds-build_exact f h)

    query_rows-ok :
        (l o : ℤ)
        → query_rows pg none (build f) l o t
          ≡ ok (take (pos_part l) (drop (pos_part o) (sort_by (nik_le pg) (select (matches f) t))))
    unfolding query_rows
    query_rows-ok l o =
        let b = build f in
        let n = length b.args in
        rw (
          where_holds-build f (int l ∷ int o ∷ []) h,
          build-IsNumbered f h,
          larger-add n,
          length-append b.args (int l ∷ int o ∷ []),
          counts.equal (n + 2),
          get_elem?-append b.args (int l ∷ int o ∷ []),
          get_elem?-append_next b.args (int l ∷ int o ∷ []),
        )

    -- If the driver sends a statement whose numbers of parameters and arguments agree, List with
    -- no status filter and no fault returns the page that the filter asks for and the number of
    -- all rows that it asks for, whatever the limit and the offset.
    pub list-page :
        list pg no_faults f t ≡ ok (map scanned (page f t), length (select (matches f) t))
    unfolding list page
    list-page =
        let limit = if leb_ℤ f.limit (pos 0) || ltb_ℤ (pos 500) f.limit then pos 50 else f.limit in
        let offset = if ltb_ℤ f.offset (pos 0) then pos 0 else f.offset in
        rw (
          count_rows-ok,
          query_rows-ok limit offset,
          scan_rows-none 0 _,
          pos_part-limit f.limit,
          pos_part-offset f.offset,
        )

  -- If the driver refuses a statement whose numbers of parameters and arguments differ, a status
  -- filter makes every listing fail, whatever its other fields, the table and the faults.
  pub list-status :
      (counts : CountsArguments pg) (faults : Faults) (f : Filter) (s : Bool) (t : List Record)
      → f.status_aktif ≡ some s
      → (e : Text) × (list pg faults f t ≡ err (failed (codes "count: " ++ e)))
  unfolding list count_rows
  list-status counts faults f s t h = elim (Option-cases faults.count) [
    | inl none_there ↦ (mismatch, rw (none_there, unsent))
    | inr (e, there) ↦ (e, rw there)
  ]
    where
      fewer : parameters (build f).conds ≢ length (build f).args
      fewer e = omega (arith, build-parameters_status f s h, e)

      unsent : pg.sends (parameters (build f).conds) (length (build f).args) ≡ false
      unsent = counts.unequal _ _ fewer
