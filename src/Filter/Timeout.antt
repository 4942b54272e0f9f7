-- ===== src/Filter/Timeout.antt =====
-- `MakeFilterMetricTimeout` of internal/app/domain/model/filter.go: how long the key of a metric
-- lives. A `time.Duration` is a 64-bit number of nanoseconds, and its products wrap around.
use easymail.Base.{ℕ, ◌-◌, ◌*◌, ◌%◌, ◌^◌, ◌<◌, ◌≡◌, refl, ap, ◌∙◌, arith, ltb, if◌then◌else◌}
use easymail.Base.Int.{ℤ, pos, negsuc}
use easymail.Filter.{MetricUnit, minute, hour, day, week, month, year, other}

-- The int64 with the bit pattern `x`.
signed : ℕ → ℤ
signed x = if ltb x (2 ^ 63) then pos x else negsuc (2 ^ 64 - 1 - x)

-- The bit pattern of an int64.
pattern_of : ℤ → ℕ
pattern_of (pos n) = n % 2 ^ 64
pattern_of (negsuc n) = 2 ^ 64 - 1 - n % 2 ^ 64

-- `a * k` for a positive constant `k`.
unfoldable pub mul_int64 : ℤ → ℕ → ℤ
unfolding signed pattern_of
mul_int64 a k = signed (pattern_of a * k % 2 ^ 64)

-- `time.Minute` and `time.Hour`.
abbrev minute_ns : ℕ
minute_ns = 60 * 10 ^ 9

abbrev hour_ns : ℕ
hour_ns = 60 * minute_ns

-- `MakeFilterMetricTimeout()`, of the metric's unit and interval.
unfoldable pub make_filter_metric_timeout : MetricUnit → ℤ → ℤ
unfolding mul_int64
make_filter_metric_timeout minute i = mul_int64 i minute_ns
make_filter_metric_timeout hour i = mul_int64 i hour_ns
make_filter_metric_timeout day i = mul_int64 (mul_int64 i 24) hour_ns
make_filter_metric_timeout week i = mul_int64 (mul_int64 (mul_int64 i 7) 24) hour_ns
make_filter_metric_timeout month i = mul_int64 (mul_int64 (mul_int64 i 30) 24) hour_ns
make_filter_metric_timeout year i = mul_int64 (mul_int64 (mul_int64 i 365) 24) hour_ns
make_filter_metric_timeout (other u) i = mul_int64 (pos 5) minute_ns

-- The nanoseconds of `n` units: 60, 1440, 10080, 43200 and 525600 minutes to an hour, a day, a week,
-- a month and a year, and five minutes in all where the number names no unit.
abbrev pub life : MetricUnit → ℕ → ℕ
life minute n = n * (60 * 10 ^ 9)
life hour n = n * (60 * (60 * 10 ^ 9))
life day n = n * (1440 * (60 * 10 ^ 9))
life week n = n * (10080 * (60 * 10 ^ 9))
life month n = n * (43200 * (60 * 10 ^ 9))
life year n = n * (525600 * (60 * 10 ^ 9))
life (other u) n = 5 * (60 * 10 ^ 9)

pub mul_int64_exact : (a k : ℕ) → a * k < 2 ^ 63 → a < 2 ^ 63 → mul_int64 (pos a) k ≡ pos (a * k)
unfolding mul_int64
mul_int64_exact a k h l = ground arith

-- As long as the nanoseconds fit an int64, the time-out is the interval times the unit's length, and
-- no partial product wraps around; a number that names no unit gives five minutes.
pub timeout_exact :
    (u : MetricUnit) (n : ℕ)
    → life u n < 2 ^ 63
    → make_filter_metric_timeout u (pos n) ≡ pos (life u n)
unfolding make_filter_metric_timeout
timeout_exact minute n h = mul_int64_exact n minute_ns h (omega arith)
timeout_exact hour n h = mul_int64_exact n hour_ns h (omega arith)
timeout_exact day n h =
    ap (λ t. mul_int64 t hour_ns) (mul_int64_exact n 24 (omega arith) (omega arith))
    ∙ mul_int64_exact (n * 24) hour_ns (omega arith) (omega arith)
    ∙ ap pos (omega arith)
timeout_exact week n h =
    ap (λ t. mul_int64 (mul_int64 t 24) hour_ns) (mul_int64_exact n 7 (omega arith) (omega arith))
    ∙ ap (λ t. mul_int64 t hour_ns) (mul_int64_exact (n * 7) 24 (omega arith) (omega arith))
    ∙ mul_int64_exact (n * 7 * 24) hour_ns (omega arith) (omega arith)
    ∙ ap pos (omega arith)
timeout_exact month n h =
    ap (λ t. mul_int64 (mul_int64 t 24) hour_ns) (mul_int64_exact n 30 (omega arith) (omega arith))
    ∙ ap (λ t. mul_int64 t hour_ns) (mul_int64_exact (n * 30) 24 (omega arith) (omega arith))
    ∙ mul_int64_exact (n * 30 * 24) hour_ns (omega arith) (omega arith)
    ∙ ap pos (omega arith)
timeout_exact year n h =
    ap (λ t. mul_int64 (mul_int64 t 24) hour_ns) (mul_int64_exact n 365 (omega arith) (omega arith))
    ∙ ap (λ t. mul_int64 t hour_ns) (mul_int64_exact (n * 365) 24 (omega arith) (omega arith))
    ∙ mul_int64_exact (n * 365 * 24) hour_ns (omega arith) (omega arith)
    ∙ ap pos (omega arith)
timeout_exact (other u) n h = unfold mul_int64 in refl
