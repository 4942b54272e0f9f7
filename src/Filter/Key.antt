-- ===== src/Filter/Key.antt =====
-- `MakeFilterMetricKey` of internal/app/domain/model/filter.go and the truncations of a time that it
-- calls. An operation that panics, as a remainder by 0 does, gives none.
pub mod Laws
pub mod Tests
use easymail.Base.{
  ℕ, zero, suc, ◌+◌, ◌*◌, ◌/◌, ◌%◌, Bool, Option, none, some, List, [], ◌∷◌, ◌++◌, Bytes, codes,
  ◌==◌, if◌then◌else◌,
}
use mathlib.Core.Option
use easymail.Base.Int.{ℤ, pos, negsuc}
use easymail.Clock.{
  minute_ns, hour_ns, Date, date_of, add_ℤ, iso_week, padded, truncate, minute_of, hour_of, day_of,
  add_date, format_year, format_month, format_day, format_hour, format_minute,
}
use easymail.Filter.{MetricUnit, minute, hour, day, week, month, year, other}
use easymail.Filter.Metric.{FilterMetric}
use easymail.Filter.Timeout.{mul_int64}

-- `a % b` of an int that is not negative; none for the panic.
unfoldable pub remainder : ℕ → ℤ → Option ℕ
remainder a (pos zero) = none
remainder a (pos (suc b)) = some (a % suc b)
remainder a (negsuc b) = some (a % suc b)

-- The negative of a natural number.
abbrev pub minus : ℕ → ℤ
minus zero = pos 0
minus (suc n) = negsuc n

-- A product of two ints that may both be negative, of which `k` is a small constant.
abbrev scaled : ℤ → ℕ → ℤ
scaled z k = mul_int64 z k

-- `t.Add(-remainder * unit).Add(step)`, unless the remainder is 0, and `Truncate(step)`.
unfoldable pub rounded_by : ℕ → ℤ → ℕ → ℕ → ℕ
unfolding truncate
rounded_by unit step r t =
    truncate (if r == 0 then t else add_ℤ (add_ℤ t (minus (r * unit))) step) step

-- `fmt.Sprintf("%s:%s", m.Name, text)`, or nothing for a number that names no unit.
abbrev pub named : MetricUnit → Bytes → Bytes → Bytes
named (other u) name text = []
named minute name text = name ++ (b':' ∷ text)
named hour name text = name ++ (b':' ∷ text)
named day name text = name ++ (b':' ∷ text)
named week name text = name ++ (b':' ∷ text)
named month name text = name ++ (b':' ∷ text)
named year name text = name ++ (b':' ∷ text)

module _ (wall absolute : ℕ → ℕ) where
  -- The time that each truncation formats, behind the test of the remainder `r`.
  unfoldable pub round_minute : ℕ → ℤ → ℕ → ℕ
  unfolding rounded_by mul_int64
  round_minute t threshold r = rounded_by minute_ns (scaled threshold minute_ns) r t

  unfoldable pub round_hour : ℕ → ℤ → ℕ → ℕ
  unfolding rounded_by mul_int64
  round_hour t threshold r = rounded_by hour_ns (scaled threshold hour_ns) r t

  unfoldable pub round_day : ℕ → ℤ → ℕ → ℕ
  unfolding truncate mul_int64 add_date
  round_day t threshold r =
      truncate
        (if r == 0
          then t
          else add_date wall absolute (add_date wall absolute t (pos 0) (pos 0) (minus r)) (pos 0)
              (pos 0) threshold)
        (scaled (scaled threshold hour_ns) 24)

  unfoldable pub round_week : ℕ → ℤ → ℕ → ℕ
  unfolding truncate mul_int64 add_date
  round_week t threshold r =
      truncate
        (if r == 0
          then t
          else add_date wall absolute (add_date wall absolute t (pos 0) (pos 0) (minus (r * 7)))
              (pos 0) (pos 0) (scaled threshold 7))
        (scaled (scaled (scaled threshold hour_ns) 24) 7)

  unfoldable pub round_month : ℕ → ℤ → ℕ → ℕ
  unfolding truncate mul_int64 add_date
  round_month t threshold r =
      truncate
        (if r == 0
          then t
          else add_date wall absolute (add_date wall absolute t (pos 0) (minus r) (pos 0)) (pos 0)
              threshold (pos 0))
        (scaled (scaled threshold hour_ns) 24)

  unfoldable pub round_year : ℕ → ℤ → ℕ → ℕ
  unfolding truncate mul_int64 add_date
  round_year t threshold r =
      truncate
        (if r == 0
          then t
          else add_date wall absolute (add_date wall absolute t (minus r) (pos 0) (pos 0)) threshold
              (pos 0) (pos 0))
        (scaled (scaled threshold hour_ns) 24)

  -- `truncateTimeByMinute(t, threshold)`, and the others.
  unfoldable pub truncate_time_by_minute : ℕ → ℤ → Option Bytes
  unfolding remainder round_minute minute_of format_minute
  truncate_time_by_minute t threshold =
      Option.map (λ r. format_minute wall (round_minute t threshold r))
        (remainder (minute_of wall t) threshold)

  unfoldable pub truncate_time_by_hour : ℕ → ℤ → Option Bytes
  unfolding remainder round_hour hour_of format_hour
  truncate_time_by_hour t threshold =
      Option.map (λ r. format_hour wall (round_hour t threshold r))
        (remainder (hour_of wall t) threshold)

  unfoldable pub truncate_time_by_day : ℕ → ℤ → Option Bytes
  unfolding remainder round_day day_of date_of format_day
  truncate_time_by_day t threshold =
      Option.map (λ r. format_day wall (round_day t threshold r))
        (remainder (date_of (day_of wall t)).day threshold)

  unfoldable pub truncate_time_by_week : ℕ → ℤ → Option Bytes
  unfolding remainder round_week day_of iso_week padded
  truncate_time_by_week t threshold =
      Option.map
        (λ r.
          let (y, w) = iso_week (day_of wall (round_week t threshold r)) in
          padded 1 y ++ padded 2 w)
        (remainder ((iso_week (day_of wall t)).1) threshold)

  unfoldable pub truncate_time_by_month : ℕ → ℤ → Option Bytes
  unfolding remainder round_month day_of date_of format_month
  truncate_time_by_month t threshold =
      Option.map (λ r. format_month wall (round_month t threshold r))
        (remainder (date_of (day_of wall t)).month threshold)

  -- The remainder is that of the month.
  unfoldable pub truncate_time_by_year : ℕ → ℤ → Option Bytes
  unfolding remainder round_year day_of date_of format_year
  truncate_time_by_year t threshold =
      Option.map (λ r. format_year wall (round_year t threshold r))
        (remainder (date_of (day_of wall t)).month threshold)

  -- The text of a time for a unit and an interval; no text for a number that names no unit.
  unfoldable pub window_text : MetricUnit → ℕ → ℤ → Option Bytes
  unfolding truncate_time_by_minute truncate_time_by_hour truncate_time_by_day truncate_time_by_week
      truncate_time_by_month truncate_time_by_year
  window_text minute t i = truncate_time_by_minute t i
  window_text hour t i = truncate_time_by_hour t i
  window_text day t i = truncate_time_by_day t i
  window_text week t i = truncate_time_by_week t i
  window_text month t i = truncate_time_by_month t i
  window_text year t i = truncate_time_by_year t i
  window_text (other u) t i = some []

  -- `MakeFilterMetricKey()` at a time.
  unfoldable pub make_filter_metric_key : ℕ → FilterMetric → Option Bytes
  unfolding window_text
  make_filter_metric_key t m = Option.map (named m.unit m.name) (window_text m.unit t m.interval)
