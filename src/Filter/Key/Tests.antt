-- ===== src/Filter/Key/Tests.antt =====
-- Keys at February 29 of 2024, 13:47, on a clock that shows UTC.
use easymail.Base.{ℕ, ◌≡◌, ◌+◌, ◌*◌, ◌-◌, refl, none, some, codes}
use easymail.Base.Int.{pos}
use easymail.Clock.{
  date_of, month_start, iso_week, minute_ns, hour_ns, day_ns, format_minute, format_hour,
}
use easymail.Filter.{minute, hour, day, year}
use easymail.Filter.Metric.{FilterMetric, zero_metric}
use easymail.Filter.Key.{
  truncate_time_by_minute, truncate_time_by_hour, window_text, make_filter_metric_key,
}
use easymail.Filter.Key.Laws.{window, truncate_time_window}

abbrev utc : ℕ → ℕ
utc t = t

abbrev leap_day : ℕ
leap_day = 63844811220000000005

dated : date_of 738944 ≡ record { year = 2024; month = 2; day = 29; year_day = 59 }
unfolding date_of
dated = refl

started : month_start (2024 * 12 + 1) ≡ 738944 - 28
unfolding month_start
started = refl

weeks : iso_week 738944 ≡ (2024, 9)
unfolding iso_week
weeks = refl

shown : format_minute utc leap_day ≡ codes "202402291347"
unfolding format_minute
shown = refl

-- Up to the next quarter of an hour, and to the next multiple of six hours.
next_quarter : window_text utc utc minute leap_day (pos 15) ≡ some (codes "202402291400")
unfolding window_text
next_quarter = refl

next_shift : window_text utc utc hour leap_day (pos 6) ≡ some (codes "2024022918")
unfolding window_text
next_shift = refl

-- Days of one, and the year of two, which is up by the remainder of the month.
one_day : window_text utc utc day leap_day (pos 1) ≡ some (codes "20240229")
unfolding window_text
one_day = refl

same_year : window_text utc utc year leap_day (pos 2) ≡ some (codes "2024")
unfolding window_text
same_year = refl

next_year : window_text utc utc year (leap_day + day_ns) (pos 2) ≡ some (codes "2025")
unfolding window_text
next_year = refl

truncate_time_window_example :
    (truncate_time_by_minute utc utc leap_day (pos 15)
      ≡ some (format_minute utc (window minute_ns 15 leap_day)))
    × (truncate_time_by_hour utc utc leap_day (pos 6)
        ≡ some (format_hour utc (window hour_ns 6 leap_day)))
truncate_time_window_example = truncate_time_window utc utc leap_day 14 5 refl refl refl refl

abbrev rate : FilterMetric
rate = record zero_metric { name = codes "rate"; unit = hour; interval = pos 0 }

no_interval : make_filter_metric_key utc utc leap_day rate ≡ none
unfolding make_filter_metric_key
no_interval = refl
