-- ===== src/Filter/Listing/Tests.antt =====
-- The query of a stage, over a join in memory.
use easymail.Base.{
  ℕ, ◌≡◌, refl, sym, ap, true, Option, none, some, List, [], ◌∷◌, map, keep, length, codes, ◌∙◌,
}
use easymail.Base.Int.{pos}
use easymail.Model.Listing.{SameRows}
use easymail.Filter.{connect, helo}
use easymail.Filter.Metric.{FilterMetric, zero_metric}
use easymail.Filter.Listing.{FilterField, Joined, Loaded, get_filter_metric_by_stage, name_of}
use easymail.Filter.Listing.Laws.{left_join, IsJoin, get_filter_metric_by_stage-times}

-- A join in memory, which loads no fields.
abbrev bare : FilterMetric → Loaded
bare m = (m, (none, none))

abbrev memory_join : Joined → List FilterMetric → List FilterField → Option (List Loaded)
memory_join j ms fs = some (map bare (left_join j ms fs))

bare_metrics : (ms : List FilterMetric) → map (λ l. l.0) (map bare ms) ≡ ms
bare_metrics [] = refl
bare_metrics (m ∷ ms) = ap (λ xs. m ∷ xs) (bare_metrics ms)

same_rows : {xs ys : List FilterMetric} → xs ≡ ys → SameRows xs ys
same_rows e = λ q. ap (λ zs. length (keep q zs)) e

rows_returned : {xs ys : List Loaded} → some xs ≡ some ys → xs ≡ ys
rows_returned e = cc e

memory-IsJoin : IsJoin memory_join
memory-IsJoin = record {
  joined = λ j ms fs e.
      same_rows (ap (map (λ l. l.0)) (sym (rows_returned e)) ∙ bare_metrics (left_join j ms fs));
}

abbrev field : ℕ → FilterField
field k = record {
  id = pos k;
  name = codes "field";
  description = [];
  account_id = pos 1;
  create_time = 1;
  update_time = 1;
  delete_time = 0;
  status = 1;
  can_metric = true;
  stage = helo;
}

-- The first metric has two fields of the stage, the second one, the third none.
abbrev metric : ℕ → ℕ → ℕ → FilterMetric
metric k a b = record zero_metric {
  id = pos k;
  status = 1;
  primary_field_id = pos a;
  secondary_field_id = pos b;
}

abbrev metrics : List FilterMetric
metrics = metric 1 7 8 ∷ metric 2 7 9 ∷ metric 3 9 9 ∷ []

abbrev fields : List FilterField
fields = field 7 ∷ field 8 ∷ record (field 9) { stage = connect } ∷ []

abbrev returned : List Loaded
returned = bare (metric 1 7 8) ∷ bare (metric 1 7 8) ∷ bare (metric 2 7 9) ∷ []

twice : get_filter_metric_by_stage true memory_join helo metrics fields ≡ some returned
unfolding get_filter_metric_by_stage
twice = refl

get_filter_metric_by_stage-times_example : length returned ≡ 3
get_filter_metric_by_stage-times_example =
    get_filter_metric_by_stage-times memory_join memory-IsJoin helo metrics fields returned twice
      (λ m. true)

named_field : name_of (pos 8) fields ≡ codes "field"
named_field = refl
