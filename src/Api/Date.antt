-- ===== src/Api/Date.antt =====
-- `Format("2006-01-02")` of a time in UTC, for internal/api/handlers.go.
mod Tests
use gateway_login.Base.{
  ℕ, zero, suc, ◌+◌, ◌-◌, ◌*◌, ◌/◌, ◌%◌, Bool, true, false, ◌&&◌, ◌||◌, not, List, [], ◌∷◌, ◌++◌,
  Text, ltb, ◌==◌, if◌then◌else◌, pos,
}
use gateway_login.Decimal.{itoa}
use gateway_login.Postgres.{Time, day}

-- A year counted from 0, of a cycle of n days whose last part may be one day longer.
abbrev part : ℕ → ℕ → ℕ → ℕ
part days size most = if ltb most (days / size) then most else days / size

pub record Civil : Type 0 where
  pub year : ℕ
  pub month : ℕ
  pub day_of_month : ℕ

is_leap : ℕ → Bool
is_leap y = (y % 4 == 0) && (not (y % 100 == 0) || (y % 400 == 0))

-- The months from the n-th on, by their lengths.
month_from : ℕ → ℕ → ℕ → List ℕ → Civil
month_from year n yday [] = record { year = year; month = n; day_of_month = yday + 1 }
month_from year n yday (l ∷ ls) =
    let rest = month_from year (n + 1) (yday - l) ls in
    if ltb yday l then record { year = year; month = n; day_of_month = yday + 1 } else rest

month_lengths : Bool → List ℕ
month_lengths leap =
    31 ∷ (if leap then 29 else 28) ∷ 31 ∷ 30 ∷ 31 ∷ 30 ∷ 31 ∷ 31 ∷ 30 ∷ 31 ∷ 30 ∷ []

-- The date of a day, counted from the first of January of the year 1.
unfoldable pub civil : ℕ → Civil
unfolding month_from month_lengths is_leap
civil days =
    let n400 = days / 146097 in
    let d400 = days % 146097 in
    let n100 = part d400 36524 3 in
    let d100 = d400 - n100 * 36524 in
    let n4 = d100 / 1461 in
    let d4 = d100 % 1461 in
    let n1 = part d4 365 3 in
    let year = n400 * 400 + n100 * 100 + n4 * 4 + n1 + 1 in
    month_from year 1 (d4 - n1 * 365) (month_lengths (is_leap year))

-- At least `width` digits.
abbrev pad2 : ℕ → Text
pad2 n = if ltb n 10 then b'0' ∷ itoa (pos n) else itoa (pos n)

abbrev pad4 : ℕ → Text
pad4 n =
    if ltb n 100
    then b'0' ∷ b'0' ∷ pad2 n
    else if ltb n 1000
    then b'0' ∷ itoa (pos n)
    else itoa (pos n)

-- The text of a day, counted from the first of January of the year 1.
unfoldable pub format_day : ℕ → Text
unfolding civil
format_day days =
    let c = civil days in pad4 c.year ++ b'-' ∷ pad2 c.month ++ b'-' ∷ pad2 c.day_of_month

unfoldable pub format_date : Time → Text
format_date t = format_day (t / day)
