-- ===== src/Filter/Listing/Laws.antt =====
-- What a join of metrics with their fields returns.
use easymail.Base.{
  ℕ, ◌+◌, ◌≡◌, refl, ap, ap₂, sym, ◌∙◌, Bool, true, false, ◌&&◌, ◌||◌, Option, none, some, List, [],
  ◌∷◌, ◌++◌, map, keep, length, ◌==◌, arith, if◌then◌else◌,
}
use easymail.Base.Int.{eq_ℤ}
use easymail.Model.Listing.{SameRows}
use easymail.Filter.{FilterStage}
use easymail.Filter.Metric.{FilterMetric}
use easymail.Filter.Listing.{
  FilterField, Joined, Loaded, measures, by_stage, get_filter_metric_by_stage,
}

-- The joined rows of a metric for the fields that the join finds: one row without a field when it
-- finds none.
abbrev pub rows_of : Joined → FilterMetric → List FilterField → List FilterMetric
rows_of j m [] = if j.rows m none then m ∷ [] else []
rows_of j m (f ∷ fs) = map (λ _. m) (keep (λ g. j.rows m (some g)) (f ∷ fs))

-- The metrics of a left join.
abbrev pub left_join : Joined → List FilterMetric → List FilterField → List FilterMetric
left_join j [] fs = []
left_join j (m ∷ ms) fs = rows_of j m (keep (j.on m) fs) ++ left_join j ms fs

-- A query that joins on the left, in some order.
pub record IsJoin (find : Joined → List FilterMetric → List FilterField → Option (List Loaded))
    : Type 0 where
  pub joined :
      (j : Joined) (ms : List FilterMetric) (fs : List FilterField) {out : List Loaded}
      → find j ms fs ≡ some out
      → SameRows (map (λ l. l.0) out) (left_join j ms fs)

-- The field is the metric's primary or secondary one, is of the stage, active and measurable.
abbrev pub is_measured : FilterStage → FilterMetric → FilterField → Bool
is_measured stage m f =
    (eq_ℤ f.id m.primary_field_id || eq_ℤ f.id m.secondary_field_id) && measures stage (some f)

-- How often the active metrics of the test are returned: once for each such field.
abbrev pub times : FilterStage → (FilterMetric → Bool) → List FilterMetric → List FilterField → ℕ
times stage q [] fs = 0
times stage q (m ∷ ms) fs =
    (if q m && m.status == 1 then length (keep (is_measured stage m) fs) else 0)
    + times stage q ms fs

module _ {A B : Type 0} where
  length-keep-map :
      (q : B → Bool) (f : A → B) (xs : List A)
      → length (keep q (map f xs)) ≡ length (keep (λ x. q (f x)) xs)
  length-keep-map q f [] = refl
  length-keep-map q f (x ∷ xs) = ground (arith, length-keep-map q f xs)

module _ {A : Type 0} where
  length-keep-append :
      (q : A → Bool) (xs ys : List A)
      → length (keep q (xs ++ ys)) ≡ length (keep q xs) + length (keep q ys)
  length-keep-append q [] ys = omega arith
  length-keep-append q (x ∷ xs) ys = ground (arith, length-keep-append q xs ys)

  keep-keep : (p q : A → Bool) (xs : List A) → keep p (keep q xs) ≡ keep (λ x. q x && p x) xs
  keep-keep p q [] = refl
  keep-keep p q (x ∷ xs) = ground (arith, keep-keep p q xs)

-- A row that is there or not, for each of some fields.
length-keep-const :
    (q : FilterMetric → Bool) (m : FilterMetric) (p : FilterField → Bool) (fs : List FilterField)
    → length (keep q (map (λ _. m) (keep p fs))) ≡ (if q m then length (keep p fs) else 0)
length-keep-const q m p [] = ground arith
length-keep-const q m p (f ∷ fs) = ground (arith, length-keep-const q m p fs)

-- A test that does not depend on the element, beside another.
length-keep-guarded :
    (c : Bool) (p : FilterField → Bool) (fs : List FilterField)
    → length (keep (λ f. c && p f) fs) ≡ (if c then length (keep p fs) else 0)
length-keep-guarded true p fs = refl
length-keep-guarded false p [] = refl
length-keep-guarded false p (f ∷ fs) = length-keep-guarded false p fs

nested_if :
    (a b : Bool) (n : ℕ) → (if a then (if b then n else 0) else 0) ≡ (if a && b then n else 0)
nested_if true b n = refl
nested_if false b n = refl

module _ (stage : FilterStage) (q : FilterMetric → Bool) (m : FilterMetric) where
  no_field : (b : Bool) → (if b && false then m ∷ [] else []) ≡ []
  no_field true = refl
  no_field false = refl

  zero_twice : (b : Bool) → length (keep q []) ≡ (if b then 0 else 0)
  zero_twice true = refl
  zero_twice false = refl

  length-rows_of :
      (fs : List FilterField)
      → length (keep q (rows_of (by_stage stage) m fs))
        ≡ (if q m && m.status == 1 then length (keep (λ f. measures stage (some f)) fs) else 0)
  unfolding by_stage
  length-rows_of [] =
      ap (λ xs. length (keep q xs)) (no_field (m.status == 1)) ∙ zero_twice (q m && m.status == 1)
  length-rows_of (f ∷ fs) =
      length-keep-const q m (λ g. m.status == 1 && measures stage (some g)) (f ∷ fs)
      ∙ ap (λ n. if q m then n else 0)
          (length-keep-guarded (m.status == 1) (λ g. measures stage (some g)) (f ∷ fs))
      ∙ nested_if (q m) (m.status == 1) (length (keep (λ g. measures stage (some g)) (f ∷ fs)))

length-left_join :
    (stage : FilterStage) (q : FilterMetric → Bool) (ms : List FilterMetric) (fs : List FilterField)
    → length (keep q (left_join (by_stage stage) ms fs)) ≡ times stage q ms fs
unfolding by_stage
length-left_join stage q [] fs = refl
length-left_join stage q (m ∷ ms) fs =
    let on = λ (f : FilterField). eq_ℤ f.id m.primary_field_id || eq_ℤ f.id m.secondary_field_id in
    length-keep-append q (rows_of (by_stage stage) m (keep on fs))
      (left_join (by_stage stage) ms fs)
    ∙ ap₂ (λ a b. a + b)
        (length-rows_of stage q m (keep on fs)
          ∙ ap (λ xs. if q m && m.status == 1 then length xs else 0)
              (keep-keep (λ f. measures stage (some f)) on fs))
        (length-left_join stage q ms fs)

-- Over a query that joins on the left, `GetFilterMetricByStage` returns each active metric once for
-- each field of its two that is of the stage, active and measurable, and no other metric: one with no
-- such field is not returned, and one whose two fields are such is returned twice. Counted for every
-- test on metrics.
pub get_filter_metric_by_stage-times :
    (find : Joined → List FilterMetric → List FilterField → Option (List Loaded))
    → IsJoin find
    → (stage : FilterStage) (ms : List FilterMetric) (fs : List FilterField) (out : List Loaded)
    → get_filter_metric_by_stage true find stage ms fs ≡ some out
    → (q : FilterMetric → Bool) → length (keep (λ l. q (l.0)) out) ≡ times stage q ms fs
unfolding get_filter_metric_by_stage
get_filter_metric_by_stage-times find is stage ms fs out e q =
    sym (length-keep-map q (λ l. l.0) out)
    ∙ is.joined (by_stage stage) ms fs e q
    ∙ length-left_join stage q ms fs
