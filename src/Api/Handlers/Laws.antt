-- ===== src/Api/Handlers/Laws.antt =====
-- What the two endpoints of internal/api/handlers.go answer.
use mathlib.Core.List.{map-map}
use gateway_login.Base.{
  zero, suc, ◌≡◌, ◌≢◌, refl, Bool, none, some, List, [], ◌∷◌, map, Text, text_eq, codes, arith, inl,
  inr, Bool-cases, length, select, if◌then◌else◌, ℤ, pos, negsuc,
}
use gateway_login.Postgres.{Time, Postgres, CountsArguments}
use gateway_login.Karyawan.{Karyawan}
use gateway_login.Karyawan.Table.{Record, scanned, upsert}
use gateway_login.Karyawan.Table.Laws.{stored, get_by_nik-upsert}
use gateway_login.Karyawan.Query.{Faults}
use gateway_login.Karyawan.Query.Page.{no_faults, page_limit, page, matches, list-page, list-status}
use gateway_login.Api.View.{to_view, list_body, view_body, write_err}
use gateway_login.Api.Handlers.{
  Query, get_param, clamp_limit, status_param, filter_of, list_response, handle_list, get_response,
  handle_get,
}

-- The limit that is reported is the limit of the page.
clamp_limit-eq-page_limit : (n : ℤ) → clamp_limit n ≡ pos (page_limit n)
unfolding clamp_limit
clamp_limit-eq-page_limit (pos zero) = ground arith
clamp_limit-eq-page_limit (pos (suc n)) = ground arith
clamp_limit-eq-page_limit (negsuc n) = ground arith

status_param-none :
    (q : Query) → get_param (codes "status_aktif") q ≡ [] → (filter_of q).status_aktif ≡ none
unfolding filter_of status_param
status_param-none q h = rw h

status_param-some : (v : Text) → v ≢ [] → (s : Bool) × (status_param v ≡ some s)
unfolding status_param
status_param-some [] h = absurd (h refl)
status_param-some (c ∷ v) h = (_, refl)

module _ (pg : Postgres) (counts : CountsArguments pg) (t : List Record) (q : Query) where
  -- If the driver sends a statement whose numbers of parameters and arguments agree, a listing
  -- without `status_aktif` that meets no fault answers 200 with the views of the page that the
  -- parameters ask for, the number of all rows asked for, the limit of that page, whatever was
  -- asked, and the offset as it was given.
  pub handle_list-page :
      get_param (codes "status_aktif") q ≡ []
      → handle_list pg no_faults t q ≡ record {
        status = 200;
        body = list_body (record {
          rows = map (λ r. to_view (scanned r)) (page pg (filter_of q) t);
          total = length (select (matches pg (filter_of q)) t);
          limit = pos (page_limit (filter_of q).limit);
          offset = (filter_of q).offset;
        });
      }
  unfolding handle_list list_response
  handle_list-page h = rw (
    list-page pg counts (filter_of q) t (status_param-none q h),
    clamp_limit-eq-page_limit,
    map-map to_view scanned (page pg (filter_of q) t),
  )

  -- If the driver refuses a statement whose numbers of parameters and arguments differ, every
  -- listing with a `status_aktif` that is not empty answers 500.
  pub handle_list-status :
      (faults : Faults)
      → get_param (codes "status_aktif") q ≢ []
      → handle_list pg faults t q ≡ write_err 500 (codes "query_error")
  unfolding handle_list
  handle_list-status faults h =
      let (s, e) = status_param-some _ h in
      let (m, failure) = list-status pg counts faults (filter_of q) s t (unfold filter_of in e) in
      rw failure (unfold list_response in refl)

-- After an upsert, GET for a key that is not empty answers 200 with the view of the stored
-- employee if it is the employee's key, and what it answered before under any other key.
pub handle_get-upsert :
    (now : Time) (k : Karyawan) (t : List Record) (nik : Text)
    → nik ≢ []
    → handle_get none (upsert now k t) nik ≡ (
        if text_eq k.nik_hris nik
        then record { status = 200; body = view_body (to_view (stored now k)) }
        else handle_get none t nik)
unfolding handle_get
handle_get-upsert now k t [] h = absurd (h refl)
handle_get-upsert now k t (c ∷ s) h =
    rw (get_by_nik-upsert now k t (c ∷ s)) (elim (Bool-cases (text_eq k.nik_hris (c ∷ s))) [
      | inl same ↦ rw same (unfold get_response in refl)
      | inr other ↦ rw other
    ])
