-- ===== src/Filter/Metric.antt =====
-- The metrics of internal/app/domain/model/filter.go: the operations on their table. A status is 0 for
-- an inactive metric, 1 for an active one and 2 for a deleted one.
pub mod Laws
pub mod Tests
use easymail.Base.{
  ℕ, Bool, true, false, ◌&&◌, ◌||◌, not, Option, none, some, List, [], ◌∷◌, Bytes, ◌==◌, same,
  is_empty, if◌then◌else◌,
}
use easymail.Base.Int.{ℤ, pos, negsuc, eq_ℤ, ltb_ℤ}
use easymail.Model.Gorm.{Gorm, Fetch, DbError}
use easymail.Filter.{
  FilterCategory, all, unknown, ham, spam, MetricOperation, count, collect, MetricUnit, minute,
  hour, day, week, month, year, other,
}

-- `FilterMetric`, without the fields that it points to.
pub record FilterMetric : Type 0 where
  pub id : ℤ
  pub name : Bytes
  pub description : Bytes
  pub account_id : ℤ
  pub create_time : ℕ
  pub update_time : ℕ
  pub delete_time : ℕ
  pub status : ℕ
  pub primary_field_id : ℤ
  pub secondary_field_id : ℤ
  pub operation : MetricOperation
  pub category : FilterCategory
  pub unit : MetricUnit
  pub interval : ℤ

-- `FilterMetric{}`.
abbrev pub zero_metric : FilterMetric
zero_metric = record {
  id = pos 0;
  name = [];
  description = [];
  account_id = pos 0;
  create_time = 0;
  update_time = 0;
  delete_time = 0;
  status = 0;
  primary_field_id = pos 0;
  secondary_field_id = pos 0;
  operation = count;
  category = all;
  unit = minute;
  interval = pos 0;
}

-- `CreateFilterMetricRequest`.
pub record CreateFilterMetricRequest : Type 0 where
  pub id : ℤ
  pub name : Bytes
  pub description : Bytes
  pub primary_field : ℤ
  pub secondary_field : ℤ
  pub operation : MetricOperation
  pub category : FilterCategory
  pub interval : ℤ
  pub unit : MetricUnit
  pub account_id : ℤ

-- The errors of these operations.
pub data Failure : Type 0 where
  not_initialized not_exists name_exists status_error database_error : Failure

-- The new table, or an error.
pub data Outcome : Type 0 where
  done : List FilterMetric → Outcome
  failed : Failure → Outcome

-- The result of a call that changes the table.
outcome : Option (List FilterMetric) → Outcome
outcome none = failed database_error
outcome (some t) = done t

-- `err != nil && metric.ID == 0`, behind a query into `metric`.
missed : Fetch FilterMetric → Option FilterMetric
missed (some m, none) = some m
missed (some m, some e) = if eq_ℤ m.id (pos 0) then none else some m
missed (none, e) = none

-- `err == nil && metric.ID > 0`.
taken : Fetch FilterMetric → Bool
taken (some m, none) = ltb_ℤ (pos 0) m.id
taken (some m, some e) = false
taken (none, e) = false

-- The destination that a query leaves.
left_by : Fetch FilterMetric → FilterMetric
left_by (some m, e) = m
left_by (none, e) = zero_metric

-- The fields that both branches of `CreateFilterMetric` take from the request.
abbrev pub fill : ℕ → CreateFilterMetricRequest → FilterMetric → FilterMetric
fill now req m = record m {
  name = req.name;
  description = req.description;
  account_id = req.account_id;
  update_time = now;
  primary_field_id = req.primary_field;
  secondary_field_id = req.secondary_field;
  operation = req.operation;
  category = req.category;
  unit = req.unit;
  interval = req.interval;
}

-- The status behind `ToggleFilterMetric`, or none for the error.
abbrev pub flipped : ℕ → Option ℕ
flipped status = if status == 0 then some 1 else if status == 1 then some 0 else none

-- The row of `DeleteFilterMetric`'s update.
abbrev pub deletion : ℕ → FilterMetric
deletion now = record zero_metric { status = 2; delete_time = now }

module _ (connected : Bool) (g : Gorm FilterMetric) where
  -- `Where("id=?", id).First(&metric)`, with the test for a missing metric.
  find : ℤ → List FilterMetric → Option FilterMetric
  unfolding missed
  find id t = missed (g.first (some zero_metric) (λ m. eq_ℤ m.id id) t)

  -- The branch of `CreateFilterMetric` for a request with a key.
  update_metric : ℕ → CreateFilterMetricRequest → List FilterMetric → Outcome
  unfolding find outcome
  update_metric now req t = elim (find req.id t) [
    | none ↦ failed not_exists
    | some m ↦ outcome (g.updates_struct (λ e. eq_ℤ e.id req.id) (fill now req m) t)
  ]

  -- The branch for a request without a key, with what its query found.
  insert_metric : ℕ → CreateFilterMetricRequest → Fetch FilterMetric → List FilterMetric → Outcome
  unfolding outcome taken left_by
  insert_metric now req found t =
      if taken found
      then failed name_exists
      else outcome
          (g.create (record (fill now req (left_by found)) { create_time = now; status = 0 }) t)

  -- `CreateFilterMetric(req)`.
  unfoldable pub create_filter_metric : ℕ → CreateFilterMetricRequest → List FilterMetric → Outcome
  unfolding update_metric insert_metric
  create_filter_metric now req t =
      if not connected
      then failed not_initialized
      else if ltb_ℤ (pos 0) req.id
      then update_metric now req t
      else insert_metric now req (g.first (some zero_metric) (λ m. same m.name req.name) t) t

  -- `ToggleFilterMetric` once the metric is read.
  toggle_found : ℕ → ℤ → Option FilterMetric → List FilterMetric → Outcome
  unfolding outcome
  toggle_found now id none t = failed not_exists
  toggle_found now id (some m) t = elim (flipped m.status) [
    | none ↦ failed status_error
    | some s ↦
        outcome (g.updates (λ e. eq_ℤ e.id id) (λ e. record e { status = s; update_time = now }) t)
  ]

  -- `ToggleFilterMetric(id)`.
  unfoldable pub toggle_filter_metric : ℕ → ℤ → List FilterMetric → Outcome
  unfolding toggle_found find
  toggle_filter_metric now id t =
      if not connected then failed not_initialized else toggle_found now id (find id t) t

  -- `DeleteFilterMetric(id)`.
  unfoldable pub delete_filter_metric : ℕ → ℤ → List FilterMetric → Outcome
  unfolding find outcome
  delete_filter_metric now id t =
      if not connected then failed not_initialized else elim (find id t) [
        | none ↦ failed not_exists
        | some m ↦ outcome (g.updates_struct (λ e. eq_ℤ e.id id) (deletion now) t)
      ]

  -- `EditFilterMetric(req)`; the account stays.
  unfoldable pub edit_filter_metric : ℕ → CreateFilterMetricRequest → List FilterMetric → Outcome
  unfolding find outcome
  edit_filter_metric now req t =
      if not connected then failed not_initialized else elim (find req.id t) [
        | none ↦ failed not_exists
        | some m ↦ outcome (g.save (record (fill now req m) { account_id = m.account_id }) t)
      ]
