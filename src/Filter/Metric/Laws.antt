-- ===== src/Filter/Metric/Laws.antt =====
-- What the operations on metrics leave in the table, and what stays of a deleted metric.
use easymail.Base.{
  ℕ, ◌-◌, ◌≤◌, ◌<◌, ◌≡◌, ◌≢◌, refl, ap, sym, fun_ext, subst, ◌∙◌, ◌↔◌, Bool, true, false, not,
  Option, none, some, List, [], ◌∷◌, map, arith, Bytes, ◌==◌, is_empty, if◌then◌else◌, guard_passed,
  Bool-cases, inl, inr,
}
use easymail.Base.Int.{ℤ, pos, negsuc, eq_ℤ, ltb_ℤ}
use easymail.Model.Gorm.{Gorm, Fetch, Has, changed, IsQuery, IsChange, IsStructChange}
use easymail.Filter.{FilterCategory, all, MetricOperation, count, collect, MetricUnit, minute}
use easymail.Filter.Metric.{
  FilterMetric, zero_metric, CreateFilterMetricRequest, not_exists, status_error, done, failed,
  outcome, missed, find, fill, flipped, update_metric, toggle_found, toggle_filter_metric, deletion,
  delete_filter_metric, create_filter_metric,
}

pub eq_ℤ_iff : (a b : ℤ) → (eq_ℤ a b ≡ true) ↔ (a ≡ b)
eq_ℤ_iff (pos a) (pos b) = ground arith
eq_ℤ_iff (pos a) (negsuc b) = ground arith
eq_ℤ_iff (negsuc a) (pos b) = ground arith
eq_ℤ_iff (negsuc a) (negsuc b) = ground arith

-- The fields of `patch` that are not zero, over those of `m`.
abbrev is_zero_unit : MetricUnit → Bool
is_zero_unit minute = true
is_zero_unit _ = false

abbrev is_zero_category : FilterCategory → Bool
is_zero_category all = true
is_zero_category _ = false

abbrev is_zero_operation : MetricOperation → Bool
is_zero_operation count = true
is_zero_operation collect = false

abbrev pub overlay_metric : FilterMetric → FilterMetric → FilterMetric
overlay_metric patch m = record {
  id = if eq_ℤ patch.id (pos 0) then m.id else patch.id;
  name = if is_empty patch.name then m.name else patch.name;
  description = if is_empty patch.description then m.description else patch.description;
  account_id = if eq_ℤ patch.account_id (pos 0) then m.account_id else patch.account_id;
  create_time = if patch.create_time == 0 then m.create_time else patch.create_time;
  update_time = if patch.update_time == 0 then m.update_time else patch.update_time;
  delete_time = if patch.delete_time == 0 then m.delete_time else patch.delete_time;
  status = if patch.status == 0 then m.status else patch.status;
  primary_field_id =
      if eq_ℤ patch.primary_field_id (pos 0) then m.primary_field_id else patch.primary_field_id;
  secondary_field_id =
      if eq_ℤ patch.secondary_field_id (pos 0)
      then m.secondary_field_id
      else patch.secondary_field_id;
  operation = if is_zero_operation patch.operation then m.operation else patch.operation;
  category = if is_zero_category patch.category then m.category else patch.category;
  unit = if is_zero_unit patch.unit then m.unit else patch.unit;
  interval = if eq_ℤ patch.interval (pos 0) then m.interval else patch.interval;
}

outcome_done :
    (o : Option (List FilterMetric)) (u : List FilterMetric) → outcome o ≡ done u → o ≡ some u
unfolding outcome
outcome_done none u e = absurd (cc e)
outcome_done (some t) u e = ground (arith, e)

Has-changed :
    (p : FilterMetric → Bool) (f : FilterMetric → FilterMetric) (t : List FilterMetric)
    (m : FilterMetric)
    → Has m (changed p f t)
    → (n : FilterMetric) × Has n t × (m ≡ (if p n then f n else n))
Has-changed p f [] m h = absurd h
Has-changed p f (x ∷ t) m (inl e) = (x, inl refl, e)
Has-changed p f (x ∷ t) m (inr h) = let (n, there, e) = Has-changed p f t m h in (n, inr there, e)

-- The unit and the description of a metric.
abbrev pub shown : FilterMetric → MetricUnit × Bytes
shown m = (m.unit, m.description)

map-changed :
    {B : Type 0} (f : FilterMetric → B) (p : FilterMetric → Bool) (h : FilterMetric → FilterMetric)
    (t : List FilterMetric)
    → ((m : FilterMetric) → f (h m) ≡ f m)
    → map f (changed p h t) ≡ map f t
map-changed f p h [] same = refl
map-changed f p h (m ∷ t) same = elim (Bool-cases (p m)) [
  | inl e ↦ ground (arith, e, same m, map-changed f p h t same)
  | inr e ↦ ground (arith, e, map-changed f p h t same)
]

if_true : {A : Type 0} (x y : A) (b : Bool) → b ≡ true → (if b then x else y) ≡ x
if_true x y true h = refl
if_true x y false h = absurd (cc h)

deletion-overlay :
    (now : ℕ) (m : FilterMetric)
    → 0 < now
    → overlay_metric (deletion now) m ≡ record m { status = 2; delete_time = now }
deletion-overlay now m h = ground arith

still_deleted :
    (now : ℕ) (id : ℤ) (m n : FilterMetric)
    → m ≡ (if eq_ℤ n.id id then record n { status = 2; delete_time = now } else n)
    → m.id ≡ id
    → m.status ≤ 1
    → ⊥
still_deleted now id m n is key low = elim (Bool-cases (eq_ℤ n.id id)) [
  | inl e ↦ absurd (ground (arith, e, ap (λ (x : FilterMetric). x.status) is, low))
  | inr e ↦ absurd (ground (arith, e, ap (λ (x : FilterMetric). x.id) is, key, eq_ℤ_iff n.id id))
]

module _ (connected : Bool) (g : Gorm FilterMetric) (queries : IsQuery g) where
  missed-some :
      (p : FilterMetric → Bool) (t : List FilterMetric) (f : Fetch FilterMetric) (m : FilterMetric)
      → g.first (some zero_metric) p t ≡ f
      → missed f ≡ some m
      → (p m ≡ true) × Has m t
  unfolding missed
  missed-some p t (some n, none) m e h =
      let (r, at, test, there) = queries.first_found (some zero_metric) p t e in
      let same_row : r ≡ m = cc (at, h) in
      (subst (λ x. p x ≡ true) same_row test, subst (λ x. Has x t) same_row there)
  missed-some p t (some n, some d) m e h =
      let left : n ≡ zero_metric = cc (queries.first_failed zero_metric p t e) in
      absurd (ground (arith, h, ap (λ x. x.id) left))
  missed-some p t (none, e') m e h = absurd (cc h)

  -- A metric that the operations go on with is in the table, under its key.
  found_lem :
      (id : ℤ) (t : List FilterMetric) (m : FilterMetric)
      → find connected g id t ≡ some m
      → (m.id ≡ id) × Has m t
  unfolding find
  found_lem id t m h =
      let (e, there) = missed-some (λ x. eq_ℤ x.id id) t _ m refl h in
      ((eq_ℤ_iff m.id id).0 e, there)

  flipped_done :
      (changes : IsChange g) (now : ℕ) (id : ℤ) (t u : List FilterMetric) (m : FilterMetric)
      (o : Option ℕ)
      → flipped m.status ≡ o
      → (elim o [
        | none ↦ failed status_error
        | some s ↦
            outcome
              (g.updates (λ e. eq_ℤ e.id id) (λ e. record e { status = s; update_time = now }) t)
      ])
        ≡ done u
      → (m.status ≤ 1)
        × (u
            ≡ changed
                (λ e. eq_ℤ e.id id)
                (λ e. record e { status = 1 - m.status; update_time = now })
                t)
  flipped_done changes now id t u m none s e = absurd (cc e)
  flipped_done changes now id t u m (some k) s e =
      let value : k ≡ 1 - m.status = ground (arith, s) in
      (
        (ground (arith, s)),
        changes.updates_rows _ _ t (outcome_done _ u e)
            ∙ ap
                (λ x.
                  changed (λ (r : FilterMetric). eq_ℤ r.id id)
                    (λ r. record r { status = x; update_time = now }) t)
                value,
      )

  toggled :
      (changes : IsChange g) (now : ℕ) (id : ℤ) (t u : List FilterMetric) (o : Option FilterMetric)
      → find connected g id t ≡ o
      → toggle_found connected g now id o t ≡ done u
      → (m : FilterMetric) × Has m t
        × (m.id ≡ id)
        × (m.status ≤ 1)
        × (u
            ≡ changed
                (λ e. eq_ℤ e.id id)
                (λ e. record e { status = 1 - m.status; update_time = now })
                t)
  unfolding toggle_found
  toggled changes now id t u none f e = absurd (cc e)
  toggled changes now id t u (some m) f e =
      let (key, there) = found_lem id t m f in
      let (low, rows) = flipped_done changes now id t u m _ refl e in (m, there, key, low, rows)

  -- If a query without an error has found a row that passes its test, one that fails leaves its
  -- destination, and an update changes the rows that it names and no others: a `ToggleFilterMetric`
  -- that succeeds has read a metric of that key whose status is 0 or 1, has given the metrics of the
  -- key the other of the two and the time, and has changed nothing else.
  toggle_flips :
      (changes : IsChange g) (now : ℕ) (id : ℤ) (t u : List FilterMetric)
      → toggle_filter_metric connected g now id t ≡ done u
      → (m : FilterMetric) × Has m t
        × (m.id ≡ id)
        × (m.status ≤ 1)
        × (u
            ≡ changed
                (λ e. eq_ℤ e.id id)
                (λ e. record e { status = 1 - m.status; update_time = now })
                t)
  unfolding toggle_filter_metric
  toggle_flips changes now id t u e =
      let e1 = (guard_passed (not connected) (λ k. cc k) e).1 in
      toggled changes now id t u _ refl e1

  struct_done :
      (structs : IsStructChange g overlay_metric) (id : ℤ) (patch : FilterMetric → FilterMetric)
      (t u : List FilterMetric) (o : Option FilterMetric)
      → (elim o [
        | none ↦ failed not_exists
        | some m ↦ outcome (g.updates_struct (λ e. eq_ℤ e.id id) (patch m) t)
      ])
        ≡ done u
      → (m : FilterMetric) × (o ≡ some m)
        × (u ≡ changed (λ e. eq_ℤ e.id id) (overlay_metric (patch m)) t)
  struct_done structs id patch t u none e = absurd (cc e)
  struct_done structs id patch t u (some m) e =
      (m, refl, structs.updates_struct_rows _ _ t (outcome_done _ u e))

  -- If, besides, an update by a struct sets the fields that are not zero: a `DeleteFilterMetric` that
  -- succeeds at a time other than 0 marks the metrics of the key deleted, with the time, and changes
  -- nothing else; and no `ToggleFilterMetric` of that key succeeds afterwards.
  pub deleted_for_good :
      (changes : IsChange g) (structs : IsStructChange g overlay_metric) (now : ℕ) (id : ℤ)
      (t u : List FilterMetric)
      → 0 < now
      → delete_filter_metric connected g now id t ≡ done u
      → (u ≡ changed (λ e. eq_ℤ e.id id) (λ e. record e { status = 2; delete_time = now }) t)
        × ((later : ℕ) (v : List FilterMetric)
            → toggle_filter_metric connected g later id u ≢ done v)
  unfolding delete_filter_metric
  deleted_for_good changes structs now id t u h e =
      let e1 = (guard_passed (not connected) (λ k. cc k) e).1 in
      let (_, _, rows) = struct_done structs id (λ m. deletion now) t u _ e1 in
      let marked : u
          ≡ changed (λ e. eq_ℤ e.id id) (λ e. record e { status = 2; delete_time = now }) t =
        rows
        ∙ ap (λ f. changed (λ (r : FilterMetric). eq_ℤ r.id id) f t)
            (fun_ext (λ m. deletion-overlay now m h)) in
      (
        marked,
        λ later v k.
            let (m, there, key, low, _) = toggle_flips changes later id u v k in
            let (n, _, is) =
              Has-changed (λ e. eq_ℤ e.id id) (λ e. record e { status = 2; delete_time = now }) t m
                (subst (λ x. Has m x) marked there) in
            still_deleted now id m n is key low,
      )

  -- A request cannot turn an interval into minutes, nor clear a description: when `CreateFilterMetric`
  -- is asked for minutes and an empty description of a metric with a key, and succeeds, every metric
  -- has the unit and the description of before, as an update by a struct passes over zero fields.
  pub create_update_loses_zero :
      (structs : IsStructChange g overlay_metric) (now : ℕ) (req : CreateFilterMetricRequest)
      (t u : List FilterMetric)
      → ltb_ℤ (pos 0) req.id ≡ true
      → req.unit ≡ minute
      → req.description ≡ []
      → create_filter_metric connected g now req t ≡ done u
      → map shown u ≡ map shown t
  unfolding create_filter_metric update_metric
  create_update_loses_zero structs now req t u key unit text e =
      let e1 = (guard_passed (not connected) (λ k. cc k) e).1 in
      let e2 = sym (if_true _ _ (ltb_ℤ (pos 0) req.id) key) ∙ e1 in
      let (m, _, rows) = struct_done structs req.id (fill now req) t u _ e2 in
      ap (map shown) rows
      ∙ map-changed shown (λ r. eq_ℤ r.id req.id) (overlay_metric (fill now req m)) t
          (λ r. ground (arith, unit, text))
