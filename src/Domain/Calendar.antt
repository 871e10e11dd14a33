-- ===== src/Domain/Calendar.antt =====
-- The instants of `datetime(year, month, 1, tzinfo=UTC)`, in microseconds from 0001-01-01, and the
-- bounds of a month (`_month_bounds` of app/infra/db/repositories.py).
use report_insight.Base.{
  Text, [], ◌∷◌, ◌++◌, ℕ, ◌+◌, ◌-◌, ◌*◌, ◌/◌, ◌%◌, Bool, not, ◌&&◌, ◌||◌, ltb, ◌==◌, if◌then◌else◌,
}
use report_insight.Domain.Entities.{Date, Datetime}

unfoldable pub is_leap : ℕ → Bool
is_leap y = y % 4 == 0 && (not (y % 100 == 0) || y % 400 == 0)

unfoldable pub days_before_year : ℕ → ℕ
days_before_year y = (y - 1) * 365 + (y - 1) / 4 - (y - 1) / 100 + (y - 1) / 400

-- The days before the first of a month, in a year that is not a leap year.
abbrev pub month_offset : ℕ → ℕ
month_offset m =
    if ltb m 2
    then 0
    else if ltb m 3
    then 31
    else if ltb m 4
    then 59
    else if ltb m 5
    then 90
    else if ltb m 6
    then 120
    else if ltb m 7
    then 151
    else if ltb m 8
    then 181
    else if ltb m 9
    then 212
    else if ltb m 10
    then 243
    else if ltb m 11
    then 273
    else if ltb m 12
    then 304
    else 334

unfoldable pub days_before_month : ℕ → ℕ → ℕ
unfolding is_leap
days_before_month y m = month_offset m + (if ltb 2 m && is_leap y then 1 else 0)

unfoldable pub first_instant : ℕ → ℕ → Datetime
unfolding days_before_year days_before_month
first_instant y m = (days_before_year y + days_before_month y m) * 86400000000

unfoldable pub month_start : Date → Datetime
unfolding first_instant
month_start d = first_instant d.year d.month

unfoldable pub month_end : Date → Datetime
unfolding first_instant
month_end d =
    if d.month == 12 then first_instant (d.year + 1) 1 else first_instant d.year (d.month + 1)

-- `month.replace(day=1)`
abbrev pub first_of_month : Date → Date
first_of_month d = record d { day = 1 }

abbrev two_digits : ℕ → Text
two_digits n = (48 + n / 10 % 10) ∷ (48 + n % 10) ∷ []

-- `d.isoformat()`, for a year of at most four digits
unfoldable pub iso_date : Date → Text
iso_date d =
    two_digits (d.year / 100)
    ++ (two_digits (d.year % 100) ++ 45 ∷ (two_digits d.month ++ 45 ∷ two_digits d.day))
