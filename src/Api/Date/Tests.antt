-- ===== src/Api/Date/Tests.antt =====
-- Dates at the ends of months, years, centuries and cycles.
use gateway_login.Base.{◌≡◌, refl, codes, lt_wf, ◌*◌, ◌+◌}
use gateway_login.Decimal.{itoa, digits, emit}
use gateway_login.Postgres.{day, unix_epoch, seconds}
use gateway_login.Api.Date.{format_day, format_date}

epoch_date : format_date unix_epoch ≡ codes "1970-01-01"
unfolding format_date format_day itoa digits emit lt_wf
epoch_date = refl

leap_day : format_date (unix_epoch + day * 11016) ≡ codes "2000-02-29"
unfolding format_date format_day itoa digits emit lt_wf
leap_day = refl

end_of_cycle : format_date (unix_epoch + day * 11322) ≡ codes "2000-12-31"
unfolding format_date format_day itoa digits emit lt_wf
end_of_cycle = refl

zero_time : format_date 0 ≡ codes "0001-01-01"
unfolding format_date format_day itoa digits emit lt_wf
zero_time = refl

recent : format_date (unix_epoch + day * 20616 + seconds 5) ≡ codes "2026-06-12"
unfolding format_date format_day itoa digits emit lt_wf
recent = refl
