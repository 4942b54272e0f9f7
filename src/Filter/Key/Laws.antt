-- ===== src/Filter/Key/Laws.antt =====
-- When a metric's key panics, and which minutes and hours share a key.
use native.Mathlib.Nat.{
  mod-mod_of_dvd, div-eq_of_lt-le, div-add-mod, mod_def, mod-lt, mod-eq_of_lt, mul_comm,
  dvd_of_mod-eq-zero,
}
use easymail.Base.{
  ℕ, zero, suc, ◌+◌, ◌-◌, ◌*◌, ◌/◌, ◌%◌, ◌≤◌, ◌<◌, ◌≡◌, ◌↔◌, ◌⊎◌, refl, ap, ap₂, sym, ◌∙◌, Bool,
  true, false, none, some, [], Bytes, ◌==◌, ==_iff, ltb, if◌then◌else◌, arith, inl, inr, Bool-cases,
}
use mathlib.Core.Option
use easymail.Base.Int.{ℤ, pos, negsuc, pos_part}
use easymail.Clock.{
  minute_ns, hour_ns, add_ℤ, truncate, minute_of, hour_of, format_minute, format_hour,
}
use easymail.Filter.{MetricUnit, minute, hour, day, week, month, year, other}
use easymail.Filter.Metric.{FilterMetric}
use easymail.Filter.Timeout.{mul_int64_exact}
use easymail.Filter.Key.{
  remainder, rounded_by, minus, round_minute, round_hour, truncate_time_by_minute,
  truncate_time_by_hour, window_text, named, make_filter_metric_key,
}

truncate_positive : (x d : ℕ) → 0 < d → truncate x (pos d) ≡ x - x % d
unfolding truncate
truncate_positive x zero h = absurd (omega (arith, h))
truncate_positive x (suc d) h = refl

-- Rounding down to a multiple of a positive step.
truncate_between : (x q d : ℕ) → 0 < d → d * q ≤ x → x < d * q + d → truncate x (pos d) ≡ d * q
truncate_between x q d h low high =
    let quotient : x / d ≡ q =
      div-eq_of_lt-le {k = q} d (omega (arith, low, mul_comm q d))
        (omega (arith, high, mul_comm q d)) in
    truncate_positive x d h ∙ omega (arith, mod_def x d, ap (λ z. d * z) quotient, low)

module _ (n : ℕ) where
  -- The quotients that round up.
  up_exact : (q : ℕ) → (suc n * q + n) / suc n ≡ q
  up_exact q = div-eq_of_lt-le {k = q} (suc n) (omega arith) (omega arith)

  up_zero : (q : ℕ) → (suc n * q + 0 + n) / suc n ≡ q
  up_zero q = ap (λ z. (z + n) / suc n) (omega arith) ∙ up_exact q

  up_above : (q r : ℕ) → 0 < r → r < suc n → (suc n * q + r + n) / suc n ≡ suc q
  up_above q r low high =
      div-eq_of_lt-le {k = suc q} (suc n) (omega (arith, low)) (omega (arith, high))

add_ℤ-minus : (t k : ℕ) → add_ℤ t (minus k) ≡ t - k
add_ℤ-minus t zero = omega arith
add_ℤ-minus t (suc k) = omega arith

-- One truncation: `t` is in the unit `m = t / unit`, and the remainder of `m` by the threshold is `r`.
module _ (unit n t q r s : ℕ) (split : t ≡ unit * (suc n * q + r) + s) (small : s < unit)
    (below : r < suc n) where
  down_exact : r ≡ 0 → truncate t (pos (suc n * unit)) ≡ suc n * unit * q
  down_exact e =
      truncate_between t q (suc n * unit) (omega (arith, small)) (omega (arith, split))
        (omega (arith, split, small, ap (λ (z : ℕ). unit * z) e))

  down_above :
      0 < r
      → truncate (add_ℤ (add_ℤ t (minus (r * unit))) (pos (suc n * unit))) (pos (suc n * unit))
        ≡ suc n * unit * suc q
  down_above h =
      let moved : add_ℤ (add_ℤ t (minus (r * unit))) (pos (suc n * unit))
          ≡ t - r * unit + suc n * unit =
        omega (arith, add_ℤ-minus t (r * unit)) in
      ap (λ x. truncate x (pos (suc n * unit))) moved
      ∙ truncate_between (t - r * unit + suc n * unit) (suc q) (suc n * unit) (omega (arith, small))
          (omega (arith, split)) (omega (arith, split, small))

  -- Either way, to the next multiple of the threshold.
  rounded :
      truncate
        (if r == 0 then t else add_ℤ (add_ℤ t (minus (r * unit))) (pos (suc n * unit)))
        (pos (suc n * unit))
      ≡ suc n * unit * ((suc n * q + r + n) / suc n)
  rounded = elim (Bool-cases (r == 0)) [
    | inl e ↦
        let zero_r = (==_iff r 0).0 e in
        rw e (
          down_exact zero_r
          ∙ ap (λ x. suc n * unit * x)
              (sym (ap (λ z. (suc n * q + z + n) / suc n) zero_r ∙ up_zero n q)))
    | inr e ↦
        let some_r : 0 < r = ground (arith, e) in
        rw e (down_above some_r ∙ ap (λ x. suc n * unit * x) (sym (up_above n q r some_r below)))
  ]

-- The first multiple of `n` units at or behind the unit of a time.
abbrev pub window : ℕ → ℕ → ℕ → ℕ
window unit n t = n * unit * ((t / unit + (n - 1)) / n)

round_window :
    (unit n t : ℕ)
    → 0 < unit
    → rounded_by unit (pos (suc n * unit)) (t / unit % suc n) t ≡ window unit (suc n) t
unfolding rounded_by
round_window unit n t h =
    let m = t / unit in
    rounded unit n t (m / suc n) (m % suc n) (t % unit)
      (sym (div-add-mod t unit) ∙ ap (λ z. unit * z + t % unit) (sym (div-add-mod m (suc n))))
      (mod-lt t h) (mod-lt m (omega arith))
    ∙ ap (λ z. suc n * unit * ((z + n) / suc n)) (div-add-mod m (suc n))
    ∙ ap (λ z. suc n * unit * ((m + z) / suc n)) (omega arith)

divisor_small : (k n : ℕ) → 0 < k → k % suc n ≡ 0 → suc n ≤ k
divisor_small k n h e = elim (Bool-cases (ltb k (suc n))) [
  | inl l ↦
      let less : k < suc n = ground (arith, l) in absurd (omega (arith, h, e, mod-eq_of_lt less))
  | inr l ↦ ground (arith, l)
]

-- The remainder of what the clock shows in an hour or a day, for a threshold that divides it.
shown_remainder :
    (whole n u v : ℕ) → whole % suc n ≡ 0 → u % whole ≡ v % whole → u % whole % suc n ≡ v % suc n
shown_remainder whole n u v d e =
    ap (λ z. z % suc n) e ∙ mod-mod_of_dvd (suc n) v (dvd_of_mod-eq-zero (suc n) d)

-- The unit is one of the six.
abbrev pub is_named : MetricUnit → Bool
is_named (other u) = false
is_named minute = true
is_named hour = true
is_named day = true
is_named week = true
is_named month = true
is_named year = true

module _ (wall absolute : ℕ → ℕ) where
  rounds_minute :
      (t n : ℕ)
      → 60 % suc n ≡ 0
      → wall t / minute_ns % 60 ≡ t / minute_ns % 60
      → round_minute wall absolute t (pos (suc n)) (minute_of wall t % suc n)
        ≡ window minute_ns (suc n) t
  unfolding round_minute minute_of
  rounds_minute t n d e =
      let few = divisor_small 60 n (omega arith) d in
      ap₂ (λ z r. rounded_by minute_ns z r t)
        (mul_int64_exact (suc n) minute_ns (omega (arith, few)) (omega (arith, few)))
        (shown_remainder 60 n (wall t / minute_ns) (t / minute_ns) d e)
      ∙ round_window minute_ns n t (omega arith)

  rounds_hour :
      (t n : ℕ)
      → 24 % suc n ≡ 0
      → wall t / hour_ns % 24 ≡ t / hour_ns % 24
      → round_hour wall absolute t (pos (suc n)) (hour_of wall t % suc n) ≡ window hour_ns (suc n) t
  unfolding round_hour hour_of
  rounds_hour t n d e =
      let few = divisor_small 24 n (omega arith) d in
      ap₂ (λ z r. rounded_by hour_ns z r t)
        (mul_int64_exact (suc n) hour_ns (omega (arith, few)) (omega (arith, few)))
        (shown_remainder 24 n (wall t / hour_ns) (t / hour_ns) d e)
      ∙ round_window hour_ns n t (omega arith)

  -- An interval of minutes that divides 60, on a clock that is whole hours off, and one of hours that
  -- divides 24, on a clock that shows UTC: the text for a time is that of the first multiple of the
  -- interval, since the zero time, at or behind the time's minute or hour. So it counts up, not down.
  pub truncate_time_window :
      (t n k : ℕ)
      → 60 % suc n ≡ 0
      → 24 % suc k ≡ 0
      → wall t / minute_ns % 60 ≡ t / minute_ns % 60
      → wall t / hour_ns % 24 ≡ t / hour_ns % 24
      → (truncate_time_by_minute wall absolute t (pos (suc n))
          ≡ some (format_minute wall (window minute_ns (suc n) t)))
        × (truncate_time_by_hour wall absolute t (pos (suc k))
            ≡ some (format_hour wall (window hour_ns (suc k) t)))
  unfolding truncate_time_by_minute truncate_time_by_hour remainder
  truncate_time_window t n k d f e g = (
    ap (λ x. some (format_minute wall x)) (rounds_minute t n d e),
    ap (λ x. some (format_hour wall x)) (rounds_hour t k f g),
  )

  remainder_panics :
      (a : ℕ) (z : ℤ) (f : ℕ → Bytes) (g : Bytes → Bytes)
      → (Option.map g (Option.map f (remainder a z)) ≡ none) ↔ (z ≡ pos 0)
  unfolding remainder
  remainder_panics a (pos zero) f g = (λ e. refl, λ e. refl)
  remainder_panics a (pos (suc n)) f g =
      (λ e. absurd (cc e), λ e. absurd (omega (arith, ap pos_part e)))
  remainder_panics a (negsuc n) f g = (λ e. absurd (cc e), λ e. absurd (cc e))

  text_panics :
      (u : MetricUnit) (t : ℕ) (i : ℤ) (g : Bytes → Bytes)
      → is_named u ≡ true
      → (Option.map g (window_text wall absolute u t i) ≡ none) ↔ (i ≡ pos 0)
  unfolding window_text
  text_panics minute t i g h = remainder_panics _ i _ g
  text_panics hour t i g h = remainder_panics _ i _ g
  text_panics day t i g h = remainder_panics _ i _ g
  text_panics week t i g h = remainder_panics _ i _ g
  text_panics month t i g h = remainder_panics _ i _ g
  text_panics year t i g h = remainder_panics _ i _ g
  text_panics (other u) t i g h = absurd (cc h)

  no_unit :
      (u : MetricUnit) (t : ℕ) (i : ℤ) (name : Bytes)
      → is_named u ≡ false
      → Option.map (named u name) (window_text wall absolute u t i) ≡ some []
  unfolding window_text
  no_unit (other u) t i name h = refl
  no_unit minute t i name h = absurd (cc h)
  no_unit hour t i name h = absurd (cc h)
  no_unit day t i name h = absurd (cc h)
  no_unit week t i name h = absurd (cc h)
  no_unit month t i name h = absurd (cc h)
  no_unit year t i name h = absurd (cc h)

  -- The key of a metric whose unit is one of the six panics, at any time and place, exactly when its
  -- interval is 0; and a number that names no unit gives the empty key.
  make_filter_metric_key_panics :
      (t : ℕ) (m : FilterMetric)
      → ((is_named m.unit ≡ true)
          × ((make_filter_metric_key wall absolute t m ≡ none) ↔ (m.interval ≡ pos 0)))
        ⊎ ((is_named m.unit ≡ false) × (make_filter_metric_key wall absolute t m ≡ some []))
  unfolding make_filter_metric_key
  make_filter_metric_key_panics t m = elim (Bool-cases (is_named m.unit)) [
    | inl e ↦ inl (e, text_panics m.unit t m.interval _ e)
    | inr e ↦ inr (e, no_unit m.unit t m.interval m.name e)
  ]
