-- ===== src/Filter/Listing.antt =====
-- The listings of internal/app/domain/model/filter.go: fields, rules and metrics. The query that
-- joins two tables is a parameter.
pub mod Laws
pub mod Tests
use easymail.Base.{
  ℕ, Bool, true, false, ◌&&◌, ◌||◌, not, Option, none, some, List, [], ◌∷◌, Bytes, codes, map, ◌==◌,
  if◌then◌else◌,
}
use mathlib.Core.Option
use easymail.Base.Int.{ℤ, pos, eq_ℤ}
use easymail.Model.Gorm.{Gorm}
use easymail.Model.Listing.{Finder, Search, Page, page_of}
use easymail.Filter.{FilterStage, connect, helo, mail_from, rcpt_to, header, message, FilterRule}
use easymail.Filter.Metric.{FilterMetric, zero_metric}

-- `FilterField`.
pub record FilterField : Type 0 where
  pub id : ℤ
  pub name : Bytes
  pub description : Bytes
  pub account_id : ℤ
  pub create_time : ℕ
  pub update_time : ℕ
  pub delete_time : ℕ
  pub status : ℕ
  pub can_metric : Bool
  pub stage : FilterStage

-- `IndexFilterMetricResponse`.
pub record IndexFilterMetricResponse : Type 0 where
  pub metric : FilterMetric
  pub primary_field_name : Bytes
  pub secondary_field_name : Bytes

-- The number of a stage.
abbrev stage_number : FilterStage → ℕ
stage_number connect = 0
stage_number helo = 1
stage_number mail_from = 2
stage_number rcpt_to = 3
stage_number header = 4
stage_number message = 5

-- The time of the first row, or the zero time.
abbrev time_of : List FilterRule → ℕ
time_of [] = 0
time_of (r ∷ _) = r.update_time

-- A search with an order, and all its rows.
abbrev all_by : {R : Type 0} → (R → Bool) → Bytes → Search R
all_by p order = record { rows = p; order = some order; offset = none; limit = none }

abbrev has_key : ℤ → List FilterField → Bool
has_key id [] = false
has_key id (f ∷ fs) = eq_ℤ f.id id || has_key id fs

-- `fieldMap[id]`, where the last of several fields with a key counts; empty for a missing key.
abbrev pub name_of : ℤ → List FilterField → Bytes
name_of id [] = codes ""
name_of id (f ∷ fs) = if eq_ℤ f.id id && not (has_key id fs) then f.name else name_of id fs

-- A query that joins the metrics with the fields on the left: the test of the join, that of the joined
-- rows, where the field may be missing, and the fields that are loaded beside.
pub record Joined : Type 0 where
  pub on : FilterMetric → FilterField → Bool
  pub rows : FilterMetric → Option FilterField → Bool
  pub preloads : List Bytes

-- A metric with its primary and its secondary field.
abbrev pub Loaded : Type 0
Loaded = FilterMetric × (Option FilterField × Option FilterField)

-- The clauses on the joined field: the stage, the status and whether it can be measured.
abbrev pub measures : FilterStage → Option FilterField → Bool
measures stage none = false
measures stage (some f) =
    stage_number f.stage == stage_number stage && (f.status == 1 && f.can_metric)

-- The query of `GetFilterMetricByStage`.
unfoldable pub by_stage : FilterStage → Joined
by_stage stage = record {
  on = λ m f. eq_ℤ f.id m.primary_field_id || eq_ℤ f.id m.secondary_field_id;
  rows = λ m o. m.status == 1 && measures stage o;
  preloads = codes "PrimaryField" ∷ codes "SecondaryField" ∷ [];
}

-- `GetFilterMetricByStage(stage)`, over the end of the query.
unfoldable pub get_filter_metric_by_stage :
    Bool
    → (Joined → List FilterMetric → List FilterField → Option (List Loaded))
    → FilterStage
    → List FilterMetric
    → List FilterField
    → Option (List Loaded)
unfolding by_stage
get_filter_metric_by_stage connected find_joined stage ms fs =
    if not connected then none else find_joined (by_stage stage) ms fs

module _ (connected : Bool) (metrics : Gorm FilterMetric) (fields : Gorm FilterField)
    (find_rules : Finder FilterRule) (find_fields : Finder FilterField)
    (find_metrics : Finder FilterMetric) where
  -- `GetFilterRules()`; none for an error, here and below.
  unfoldable pub get_filter_rules : List FilterRule → Option (List FilterRule)
  get_filter_rules t =
      if not connected
      then none
      else find_rules (all_by (λ r. r.status == 1) (codes "priority desc")) t

  -- `GetLastTimeOfRule()`: the scan of one row, which leaves the zero time if there is none.
  unfoldable pub get_last_time_of_rule : List FilterRule → Option ℕ
  get_last_time_of_rule t =
      if not connected
      then none
      else Option.map time_of (
          find_rules
            (record {
              rows = λ r. r.status == 1;
              order = some (codes "update_time desc");
              offset = none;
              limit = some (pos 1);
            })
            t)

  -- `GetFilterField(orderField, orderDir, page, pageSize)`.
  unfoldable pub get_filter_field :
      Bytes → Bytes → ℤ → ℤ → List FilterField → Option (Page FilterField)
  unfolding page_of
  get_filter_field field dir page page_size t =
      if not connected
      then none
      else page_of fields.count find_fields (λ f. true) field dir page page_size t

  -- `GetAllFilterField()`.
  unfoldable pub get_all_filter_field : List FilterField → Option (List FilterField)
  get_all_filter_field t =
      if not connected
      then none
      else find_fields (all_by (λ f. f.status == 1 && f.can_metric) (codes "name asc")) t

  -- `GetFilterFieldByStage(stage)`.
  unfoldable pub get_filter_field_by_stage :
      FilterStage → List FilterField → Option (List FilterField)
  get_filter_field_by_stage stage t =
      if not connected
      then none
      else find_fields
          (all_by (λ f. f.status == 1 && stage_number f.stage == stage_number stage)
            (codes "name asc"))
          t

  -- The rows of a page of metrics, with the names of their fields.
  responses :
      Option (Page FilterMetric)
      → Option (List FilterField)
      → Option (Page IndexFilterMetricResponse)
  responses none fs = none
  responses (some page) none = none
  responses (some (total, ms)) (some fs) = some (
    total,
    map
        (λ m. record {
          metric = m;
          primary_field_name = name_of m.primary_field_id fs;
          secondary_field_name = name_of m.secondary_field_id fs;
        })
        ms,
  )

  -- `GetFilterMetric(req)`.
  unfoldable pub get_filter_metric :
      Bytes
      → Bytes
      → ℤ
      → ℤ
      → List FilterMetric
      → List FilterField
      → Option (Page IndexFilterMetricResponse)
  unfolding page_of responses get_all_filter_field
  get_filter_metric field dir start size ms fs =
      if not connected
      then none
      else responses (page_of metrics.count find_metrics (λ m. true) field dir start size ms)
          (get_all_filter_field fs)

  -- `GetFilterMetricByID(id)`: the metric that the query leaves, and whether there is an error.
  unfoldable pub get_filter_metric_by_id : ℤ → List FilterMetric → Option FilterMetric × Bool
  get_filter_metric_by_id id t =
      if not connected
      then (some zero_metric, true)
      else let (m, e) = metrics.first (some zero_metric) (λ m. eq_ℤ m.id id) t in
        (m, elim e [ none ↦ false | some f ↦ true ])
