-- ===== src/Karyawan/Query/Total.antt =====
-- The total that `List` of internal/karyawan/repo.go returns.
use gateway_login.Base.{
  ℕ, ◌≤◌, ◌≡◌, Bool, true, false, Option, none, some, List, Text, Result, ok, err, map_err,
  map_err-ok, >>=-ok, ◌>>=◌, length, length-select, arith, codes, ◌++◌,
}
use gateway_login.Postgres.{Postgres}
use gateway_login.Karyawan.{Karyawan, Filter, RepoError, failed}
use gateway_login.Karyawan.Table.{Record}
use gateway_login.Karyawan.Query.{
  Faults, Builder, answer, count_rows, scan_rows, where_holds, list, build, parameters,
}

answer-ok : (fault : Option Text) (sent : Bool) (a n : ℕ) → answer fault sent a ≡ ok n → a ≡ n
answer-ok none true a n h = cc
answer-ok none false a n h = absurd (cc)
answer-ok (some e) sent a n h = absurd (cc)

module _ (pg : Postgres) (t : List Record) where
  count_rows-le :
      (fault : Option Text) (b : Builder) (n : ℕ) → count_rows pg fault b t ≡ ok n → n ≤ length t
  unfolding count_rows
  count_rows-le fault b n h = omega (
    arith,
    answer-ok fault (pg.sends (parameters b.conds) (length b.args)) _ n h,
    length-select (where_holds pg b.conds b.args) t,
  )

  abbrev finish : Option Text → List Karyawan → ℕ → Result RepoError (List Karyawan × ℕ)
  finish fault out total = elim fault [ none ↦ ok (out, total) | some e ↦ err (failed e) ]

  rows-total :
      (fault : Option Text) (out : List Karyawan) (total n : ℕ) (ks : List Karyawan)
      → finish fault out total ≡ ok (ks, n)
      → total ≡ n
  rows-total none out total n ks h = cc
  rows-total (some e) out total n ks h = absurd (cc)

  -- It counts rows of the table.
  pub list-total :
      (faults : Faults) (f : Filter) (ks : List Karyawan) (n : ℕ)
      → list pg faults f t ≡ ok (ks, n)
      → n ≤ length t
  unfolding list
  list-total faults f ks n h =
      let counting = count_rows pg faults.count (build f) t in
      let (total, h1, counted) =
        >>=-ok _ (map_err (λ e. failed (codes "count: " ++ e)) counting) h in
      let (rows, h2, listed) =
        >>=-ok
          (λ rows.
            map_err (λ e. failed (codes "scan list: " ++ e)) (scan_rows pg faults.scan 0 rows)
            >>= λ out. finish faults.rows out total)
          _ h1 in
      let (out, h3, scanned) = >>=-ok (λ out. finish faults.rows out total) _ h2 in
      let le = count_rows-le faults.count (build f) total (map_err-ok _ counting counted) in
      omega (arith, le, rows-total faults.rows out total n ks h3)
