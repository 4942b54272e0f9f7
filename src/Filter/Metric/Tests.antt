-- ===== src/Filter/Metric/Tests.antt =====
-- The operations on a table of metrics in memory.
use easymail.Base.{ℕ, ◌≡◌, ◌≢◌, refl, true, List, [], ◌∷◌, map, arith, codes}
use easymail.Base.Int.{pos, eq_ℤ}
use easymail.Model.Gorm.{Gorm, changed}
use easymail.Model.Memory.{
  found_row, memory, memory-IsQuery, memory-IsChange, memory-IsStructChange,
}
use easymail.Filter.{spam, ham, collect, hour, minute}
use easymail.Filter.Metric.{
  FilterMetric, CreateFilterMetricRequest, done, toggle_filter_metric, delete_filter_metric,
  create_filter_metric,
}
use easymail.Filter.Metric.Laws.{overlay_metric, shown, deleted_for_good, create_update_loses_zero}

abbrev table_calls : Gorm FilterMetric
table_calls = memory overlay_metric

abbrev rate : FilterMetric
rate = record {
  id = pos 4;
  name = codes "rate";
  description = codes "per client";
  account_id = pos 1;
  create_time = 1;
  update_time = 1;
  delete_time = 0;
  status = 1;
  primary_field_id = pos 2;
  secondary_field_id = pos 3;
  operation = collect;
  category = spam;
  unit = hour;
  interval = pos 2;
}

abbrev stopped_rate : FilterMetric
stopped_rate = record rate { status = 0; update_time = 9 }

stops : toggle_filter_metric true table_calls 9 (pos 4) (rate ∷ []) ≡ done (stopped_rate ∷ [])
unfolding toggle_filter_metric found_row
stops = refl

abbrev gone_rate : FilterMetric
gone_rate = record rate { status = 2; delete_time = 9 }

goes : delete_filter_metric true table_calls 9 (pos 4) (rate ∷ []) ≡ done (gone_rate ∷ [])
unfolding delete_filter_metric found_row
goes = refl

deleted_for_good_example :
    ((gone_rate ∷ [])
      ≡ changed
          (λ e. eq_ℤ e.id (pos 4))
          (λ e. record e { status = 2; delete_time = 9 })
          (rate ∷ []))
    × ((later : ℕ) (v : List FilterMetric)
        → toggle_filter_metric true table_calls later (pos 4) (gone_rate ∷ []) ≢ done v)
deleted_for_good_example =
    deleted_for_good true table_calls (memory-IsQuery overlay_metric)
      (memory-IsChange overlay_metric) (memory-IsStructChange overlay_metric) 9 (pos 4) (rate ∷ [])
      (gone_rate ∷ []) (ground arith) goes

abbrev ask_minutes : CreateFilterMetricRequest
ask_minutes = record {
  id = pos 4;
  name = codes "rate";
  description = [];
  primary_field = pos 2;
  secondary_field = pos 3;
  operation = collect;
  category = ham;
  interval = pos 30;
  unit = minute;
  account_id = pos 1;
}

abbrev half_asked : FilterMetric
half_asked = record rate { update_time = 9; category = ham; interval = pos 30 }

half_done : create_filter_metric true table_calls 9 ask_minutes (rate ∷ []) ≡ done (half_asked ∷ [])
unfolding create_filter_metric found_row
half_done = refl

create_update_loses_zero_example : map shown (half_asked ∷ []) ≡ map shown (rate ∷ [])
create_update_loses_zero_example =
    create_update_loses_zero true table_calls (memory-IsQuery overlay_metric)
      (memory-IsStructChange overlay_metric) 9 ask_minutes (rate ∷ []) (half_asked ∷ []) refl refl
      refl half_done
