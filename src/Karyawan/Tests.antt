-- ===== src/Karyawan/Tests.antt =====
-- The repository on concrete tables.
use gateway_login.Base.{
  ◌≡◌, refl, true, none, some, List, [], ◌∷◌, ◌++◌, map, Text, codes, text_eq, ok, err, length,
  select, sort_by, insert_by, pos,
}
use gateway_login.Karyawan.{Karyawan, Filter, failed}
use gateway_login.Karyawan.Table.{Record, inserted, upsert, find, scanned, get_by_nik}
use gateway_login.Karyawan.Table.Laws.{stored, get_by_nik-upsert, IsKeyed, upsert-IsKeyed}
use gateway_login.Karyawan.Query.{list, build}
use gateway_login.Karyawan.Query.Placeholders.{IsNumbered, build-IsNumbered}
use gateway_login.Karyawan.Query.Page.{no_faults, page, matches, list-page, list-status}
use gateway_login.Samples.{postgres, postgres-CountsArguments, no_filter, employee}

abbrev andi : Karyawan
andi = employee (codes "k1") (codes "andi")

abbrev budi : Karyawan
budi = employee (codes "k2") (codes "budi")

-- Out of the order of their keys.
abbrev table : List Record
table = inserted 7 budi ∷ inserted 7 andi ∷ []

abbrev named : Filter
named = record no_filter { nama_karyawan = codes "nd"; limit = pos 10 }

list-page_example :
    list postgres no_faults named table
    ≡ ok (map scanned (page postgres named table), length (select (matches postgres named) table))
list-page_example = list-page postgres postgres-CountsArguments named table refl

page-named : page postgres named table ≡ inserted 7 andi ∷ []
unfolding page matches sort_by insert_by text_eq inserted
page-named = refl

list-status_test :
    (e : Text) × (list postgres no_faults (record named { status_aktif = some true }) table
      ≡ err (failed (codes "count: " ++ e)))
list-status_test =
    list-status postgres postgres-CountsArguments no_faults
      (record named { status_aktif = some true }) true table refl

build-IsNumbered_example : IsNumbered (build named)
build-IsNumbered_example = build-IsNumbered named refl

get_by_nik-upsert_example : get_by_nik none (codes "k1") (upsert 9 andi table) ≡ ok (stored 9 andi)
unfolding text_eq
get_by_nik-upsert_example = get_by_nik-upsert 9 andi table (codes "k1")

table-IsKeyed : IsKeyed table
unfolding find inserted text_eq
table-IsKeyed = (refl, (refl, tt))

upsert-IsKeyed_test : IsKeyed (upsert 9 andi table)
upsert-IsKeyed_test = upsert-IsKeyed 9 andi table table-IsKeyed
