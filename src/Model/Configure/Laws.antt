-- ===== src/Model/Configure/Laws.antt =====
-- What `CreateConfigure` creates is what `GetConfigureByNames` finds.
use easymail.Base.{
  ℕ, ◌≡◌, refl, ap, subst, ◌∙◌, Bool, not, Option, none, some, List, [], ◌∷◌, Bytes, if◌then◌else◌,
  guard_passed, if_false, if_false,
}
use easymail.Model.Gorm.{Gorm, Fetch, IsQuery}
use easymail.Model.Configure.{
  DataType, data_child, Configure, zero_configure, Answer, node, absent, refused, named_under,
  root_row, node_row, read, get_configure_by_name, create_root, create_node, walk,
  get_configure_by_names, ensure, after_insert, after_lookup, below, ensure_root, ensure_child,
  descend, create_configure,
}

-- `First` takes the row with the least key, and a new row has the greatest: a query that has found a
-- row finds the same row after an insertion.
pub record IsOrdered {R : Type 0} (g : Gorm R) : Type 0 where
  pub first_stays :
      (d : Option R) (p : R → Bool) (row : R) (t : List R) {u : List R} {r : R}
      → g.create row t ≡ some u
      → g.first d p t ≡ (some r, none)
      → g.first d p u ≡ (some r, none)

below_node :
    (next : Configure → List Configure → List Configure × Answer) (x : List Configure × Answer)
    (u : List Configure) (n : Configure)
    → below next x ≡ (u, node n)
    → (t1 : List Configure) × (c : Configure) × (x ≡ (t1, node c)) × (next c t1 ≡ (u, node n))
unfolding below
below_node next (t, node c) u n e = (t, c, refl, e)
below_node next (t, absent) u n e = absurd (cc (ap (λ r. r.1) e))
below_node next (t, refused f) u n e = absurd (cc (ap (λ r. r.1) e))

module _ (connected : Bool) (g : Gorm Configure) (queries : IsQuery g) (ordered : IsOrdered g) where
  -- Every name that was found under a key is found after the change, too.
  abbrev Kept : List Configure → List Configure → Type 0
  Kept t u =
      (name : Bytes) (pid : ℕ) (n : Configure)
      → get_configure_by_name connected g name pid t ≡ node n
      → get_configure_by_name connected g name pid u ≡ node n

  read_node :
      (d : Option Configure) (p : Configure → Bool) (t : List Configure) (f : Fetch Configure)
      (n : Configure)
      → g.first d p t ≡ f
      → read f ≡ node n
      → g.first d p t ≡ (some n, none)
  unfolding read
  read_node d p t (some c, none) n e h = e ∙ ap (λ x. (some x, none)) (cc h)
  read_node d p t (none, none) n e h =
      let (r, at, _, _) = queries.first_found d p t e in absurd (cc at)
  read_node d p t (some c, some f) n e h = absurd (cc h)
  read_node d p t (none, some f) n e h = absurd (cc h)

  create-Kept : (row : Configure) (t u : List Configure) → g.create row t ≡ some u → Kept t u
  unfolding get_configure_by_name read
  create-Kept row t u made name pid n h =
      let (on, h1) = guard_passed (not connected) (λ k. cc k) h in
      let found = read_node (some zero_configure) (named_under name pid) t _ n refl h1 in
      if_false _ _ (not connected) on
      ∙ ap read (ordered.first_stays (some zero_configure) (named_under name pid) row t made found)

  -- A call that inserts, when the database is initialised, keeps what was found.
  guarded-Kept :
      (row : Configure) (t u : List Configure)
      → (if not connected then none else g.create row t) ≡ some u
      → Kept t u
  guarded-Kept row t u e = create-Kept row t u ((guard_passed (not connected) (λ k. cc k) e).1)

  Made : Bytes → ℕ → List Configure → List Configure → Configure → Type 0
  Made name pid t u n = Kept t u × (get_configure_by_name connected g name pid u ≡ node n)

  inserted :
      (name : Bytes) (pid : ℕ) (t : List Configure) (o : Option (List Configure))
      (u : List Configure) (n : Configure)
      → ((v : List Configure) → o ≡ some v → Kept t v)
      → after_insert connected g name pid t o ≡ (u, node n)
      → Made name pid t u n
  unfolding Made after_insert
  inserted name pid t none u n kept e = absurd (cc (ap (λ r. r.1) e))
  inserted name pid t (some v) u n kept e =
      let same_table = ap (λ (r : List Configure × Answer). r.0) e in
      subst (λ x. Kept t x × (get_configure_by_name connected g name pid x ≡ node n)) same_table
        (kept v refl, ap (λ (r : List Configure × Answer). r.1) e)

  looked_up :
      (name : Bytes) (pid : ℕ) (make : List Configure → Option (List Configure))
      (t u : List Configure) (n : Configure) (a : Answer)
      → ((v : List Configure) → make t ≡ some v → Kept t v)
      → after_lookup connected g name pid make t a ≡ (u, node n)
      → Made name pid t u n
  unfolding Made after_lookup
  looked_up name pid make t u n (node c) kept e =
      let same_table = ap (λ (r : List Configure × Answer). r.0) e in
      subst (λ x. Kept t x × (get_configure_by_name connected g name pid x ≡ node n)) same_table
        ((λ m p k h. h), ap (λ (r : List Configure × Answer). r.1) e)
  looked_up name pid make t u n absent kept e = inserted name pid t (make t) u n kept e
  looked_up name pid make t u n (refused f) kept e = inserted name pid t (make t) u n kept e

  ensure-Made :
      (name : Bytes) (pid : ℕ) (make : List Configure → Option (List Configure))
      (t u : List Configure) (n : Configure)
      → ((v : List Configure) → make t ≡ some v → Kept t v)
      → ensure connected g name pid make t ≡ (u, node n)
      → Made name pid t u n
  unfolding ensure
  ensure-Made name pid make t u n kept e = looked_up name pid make t u n _ kept e

  root-Made :
      (now : ℕ) (name : Bytes) (t u : List Configure) (n : Configure)
      → ensure_root connected g now name t ≡ (u, node n)
      → Made name 0 t u n
  unfolding ensure_root create_root
  root-Made now name t u n e =
      ensure-Made name 0 (create_root connected g now name) t u n
        (λ v h. guarded-Kept (root_row now name) t v h) e

  child-Made :
      (now : ℕ) (value description : Bytes) (type : DataType) (name : Bytes) (parent : Configure)
      (t u : List Configure) (n : Configure)
      → ensure_child connected g now value description type name parent t ≡ (u, node n)
      → Made name parent.id t u n
  unfolding ensure_child create_node
  child-Made now value description type name parent t u n e =
      ensure-Made name parent.id (create_node connected g now parent name value type description) t
        u n (λ v h. guarded-Kept (node_row now parent name value type description) t v h) e

  walk_step :
      (found : Answer) (pid : ℕ) (name : Bytes) (names : List Bytes) (t : List Configure)
      (c : Configure)
      → get_configure_by_name connected g name pid t ≡ node c
      → walk connected g found pid (name ∷ names) t ≡ walk connected g (node c) c.id names t
  unfolding walk
  walk_step found pid name names t c e =
      ap
        (λ a. elim a [
          | node c ↦ walk connected g (node c) c.id names t
          | absent ↦ absent
          | refused f ↦ refused f
        ])
        e

  -- If a query without an error has found a row, and a row that was found is found after an insertion:
  -- a node that `CreateConfigure` returns for three names is the node that `GetConfigureByNames` finds
  -- along these names in the tables behind it, whichever of the three levels existed before.
  pub create_configure_found :
      (now : ℕ) (value description : Bytes) (type : DataType) (a b c : Bytes) (t u : List Configure)
      (n : Configure)
      → create_configure connected g now value description type (a ∷ b ∷ c ∷ []) t ≡ (u, node n)
      → get_configure_by_names connected g (a ∷ b ∷ c ∷ []) u ≡ node n
  unfolding create_configure get_configure_by_names Made descend
  create_configure_found now value description type a b c t u n e =
      let (t1, root, e1, rest1) =
        below_node (descend connected g now value description type b c)
          (ensure_root connected g now a t) u n e in
      let (t2, child, e2, rest2) =
        below_node (ensure_child connected g now value description type c)
          (ensure_child connected g now [] description data_child b root t1) u n rest1 in
      let (kept1, at1) = root-Made now a t t1 root e1 in
      let (kept2, at2) = child-Made now [] description data_child b root t1 t2 child e2 in
      let (kept3, at3) = child-Made now value description type c child t2 u n rest2 in
      walk_step absent 0 a (b ∷ c ∷ []) u root (kept3 a 0 root (kept2 a 0 root at1))
      ∙ walk_step (node root) root.id b (c ∷ []) u child (kept3 b root.id child at2)
      ∙ walk_step (node child) child.id c [] u n at3
