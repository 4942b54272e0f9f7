-- ===== src/Clock.antt =====
-- What the source uses of Go's package time. An instant is the number of nanoseconds since the zero
-- time, January 1 of the year 1 in UTC. The location of the clock is not part of the repository:
-- `wall` gives the nanoseconds that the clock on the wall shows at an instant, and `absolute` the
-- instant of what it shows.
use easymail.Base.{
  ℕ, zero, suc, ◌+◌, ◌-◌, ◌*◌, ◌/◌, ◌%◌, ◌^◌, Bool, ◌&&◌, ◌||◌, not, List, [], ◌∷◌, ◌++◌, Bytes,
  ltb, ◌==◌, length, if◌then◌else◌,
}
use easymail.Base.Int.{ℤ, pos, negsuc, pos_part, neg_part}
use easymail.Text.{decimal}

-- `time.Minute`, `time.Hour`, and a day.
abbrev pub minute_ns : ℕ
minute_ns = 60 * 10 ^ 9

abbrev pub hour_ns : ℕ
hour_ns = 60 * minute_ns

abbrev pub day_ns : ℕ
day_ns = 24 * hour_ns

-- A date; the day of the year starts at 0.
pub record Date : Type 0 where
  pub year : ℕ
  pub month : ℕ
  pub day : ℕ
  pub year_day : ℕ

abbrev pub is_leap : ℕ → Bool
is_leap y = y % 4 == 0 && (not (y % 100 == 0) || y % 400 == 0)

-- The lengths of the months of a year.
abbrev month_lengths : ℕ → List ℕ
month_lengths y =
    31 ∷ (if is_leap y then 29 else 28) ∷ 31 ∷ 30 ∷ 31 ∷ 30 ∷ 31 ∷ 31 ∷ 30 ∷ 31 ∷ 30 ∷ 31 ∷ []

-- The month and the day of it, for a day of the year.
find_month : List ℕ → ℕ → ℕ → ℕ × ℕ
find_month [] m d = (m, d + 1)
find_month (l ∷ ls) m d =
    let later = find_month ls (m + 1) (d - l) in if ltb d l then (m, d + 1) else later

abbrev at_most : ℕ → ℕ → ℕ
at_most k n = if ltb k n then k else n

-- The date of a day, counted from January 1 of the year 1.
unfoldable pub date_of : ℕ → Date
unfolding find_month
date_of n =
    let r = n % 146097 in
    let century = at_most 3 (r / 36524) in
    let r' = r - century * 36524 in
    let r'' = r' % 1461 in
    let last = at_most 3 (r'' / 365) in
    let year_day = r'' - last * 365 in
    let year = (n / 146097) * 400 + (century * 100 + ((r' / 1461) * 4 + (last + 1))) in
    let (m, d) = find_month (month_lengths year) 1 year_day in
    record { year = year; month = m; day = d; year_day = year_day }

-- The days in front of a year, and in front of a month of it.
abbrev days_before_year : ℕ → ℕ
days_before_year y = let p = y - 1 in (p * 365 + (p / 4 + p / 400)) - p / 100

sum_lengths : List ℕ → ℕ → ℕ
sum_lengths [] n = 0
sum_lengths (l ∷ ls) zero = 0
sum_lengths (l ∷ ls) (suc n) = l + sum_lengths ls n

-- The sum of a natural number and an integer, not below 0.
abbrev pub add_ℤ : ℕ → ℤ → ℕ
add_ℤ n z = (n + pos_part z) - neg_part z

-- The first day of the month with the number `i`, where the months are counted from January of the
-- year 0.
unfoldable pub month_start : ℕ → ℕ
unfolding sum_lengths
month_start i = let y = i / 12 in days_before_year y + sum_lengths (month_lengths y) (i % 12)

-- `ISOWeek()`: the year and the number of the week of a day; day 0 is a Monday.
unfoldable pub iso_week : ℕ → ℕ × ℕ
unfolding date_of
iso_week n = let t = date_of ((n - n % 7) + 3) in (t.year, t.year_day / 7 + 1)

-- A number in decimal, padded with zeros in front.
zeros : ℕ → Bytes
zeros zero = []
zeros (suc n) = b'0' ∷ zeros n

unfoldable pub padded : ℕ → ℕ → Bytes
unfolding zeros decimal
padded width n = let s = decimal n in zeros (width - length s) ++ s

-- `Truncate(d)`.
unfoldable pub truncate : ℕ → ℤ → ℕ
truncate t (pos zero) = t
truncate t (pos (suc d)) = t - t % suc d
truncate t (negsuc d) = t

module _ (wall : ℕ → ℕ) where
  -- `Minute()` and `Hour()`.
  unfoldable pub minute_of : ℕ → ℕ
  minute_of t = (wall t / minute_ns) % 60

  unfoldable pub hour_of : ℕ → ℕ
  hour_of t = (wall t / hour_ns) % 24

  -- `Date()`.
  unfoldable pub day_of : ℕ → ℕ
  day_of t = wall t / day_ns

  -- `Format` with the layouts that start with the year, the month, the day, the hour, the minute.
  unfoldable pub format_year : ℕ → Bytes
  unfolding day_of date_of padded
  format_year t = padded 4 (date_of (day_of t)).year

  unfoldable pub format_month : ℕ → Bytes
  unfolding format_year day_of date_of padded
  format_month t = format_year t ++ padded 2 (date_of (day_of t)).month

  unfoldable pub format_day : ℕ → Bytes
  unfolding format_month day_of date_of padded
  format_day t = format_month t ++ padded 2 (date_of (day_of t)).day

  unfoldable pub format_hour : ℕ → Bytes
  unfolding format_day hour_of padded
  format_hour t = format_day t ++ padded 2 (hour_of t)

  unfoldable pub format_minute : ℕ → Bytes
  unfolding format_hour minute_of padded
  format_minute t = format_hour t ++ padded 2 (minute_of t)

-- `AddDate(years, months, days)`: months and days that run over are carried on.
unfoldable pub add_date : (ℕ → ℕ) → (ℕ → ℕ) → ℕ → ℤ → ℤ → ℤ → ℕ
unfolding day_of date_of month_start
add_date wall absolute t years months days =
    let d = date_of (day_of wall t) in
    let year = add_ℤ d.year years in
    let index = add_ℤ (year * 12 + (d.month - 1)) months in
    let n = add_ℤ (month_start index + (d.day - 1)) days in absolute (n * day_ns + wall t % day_ns)
