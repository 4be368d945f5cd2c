-- ===== src/Api/Tests.antt =====
-- The endpoints on concrete tables.
use gateway_login.Base.{◌≡◌, refl, none, List, [], ◌∷◌, map, text_eq, codes, length, select, pos}
use gateway_login.Karyawan.Table.{Record, inserted, upsert, scanned}
use gateway_login.Karyawan.Table.Laws.{stored}
use gateway_login.Karyawan.Query.Page.{no_faults, page, matches, page_limit}
use gateway_login.Api.View.{to_view, list_body, view_body, write_err}
use gateway_login.Api.Handlers.{Query, filter_of, handle_list, handle_get, get_param}
use gateway_login.Api.Handlers.Laws.{handle_list-page, handle_list-status, handle_get-upsert}
use gateway_login.Samples.{postgres, postgres-CountsArguments, employee}

abbrev table : List Record
table = inserted 7 (employee (codes "k2") (codes "budi")) ∷ []

abbrev query : Query
query = (codes "nama_karyawan", codes "ud") ∷ (codes "offset", codes "-3") ∷ []

handle_list-page_example : handle_list postgres no_faults table query ≡ record {
  status = 200;
  body = list_body (record {
    rows = map (λ r. to_view (scanned r)) (page postgres (filter_of query) table);
    total = length (select (matches postgres (filter_of query)) table);
    limit = pos (page_limit (filter_of query).limit);
    offset = (filter_of query).offset;
  });
}
unfolding get_param text_eq
handle_list-page_example = handle_list-page postgres postgres-CountsArguments table query refl

handle_list-status_example :
    handle_list postgres no_faults table ((codes "status_aktif", codes "true") ∷ query)
    ≡ write_err 500 (codes "query_error")
unfolding get_param text_eq
handle_list-status_example =
    handle_list-status postgres postgres-CountsArguments table
      ((codes "status_aktif", codes "true") ∷ query) no_faults (cc)

handle_get-upsert_test :
    handle_get none (upsert 9 (employee (codes "k1") (codes "andi")) table) (codes "k1") ≡ record {
      status = 200;
      body = view_body (to_view (stored 9 (employee (codes "k1") (codes "andi"))));
    }
unfolding text_eq
handle_get-upsert_test =
    handle_get-upsert 9 (employee (codes "k1") (codes "andi")) table (codes "k1") (cc)
