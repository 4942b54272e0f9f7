-- ===== src/Model/Gorm.antt =====
-- The interface to gorm, which is not part of the repository: its calls on one table, as functions
-- that a development is given, and what the code relies on of them. A table is the list of its rows,
-- and a Where clause is a test on rows.
use easymail.Base.{
  ℕ, ◌≡◌, ◌⊎◌, Bool, true, not, Option, none, some, List, [], ◌∷◌, map, if◌then◌else◌, keep,
}

-- `gorm.ErrRecordNotFound`, or any other error.
pub data DbError : Type 0 where
  record_not_found other_error : DbError

-- The destination that a query leaves, and its error.
abbrev pub Fetch : Type 0 → Type 0
Fetch R = Option R × Option DbError

-- The calls on a table of rows `R`. A call that changes rows returns the new table, or none when it
-- fails and the table is as before.
pub record Gorm (R : Type 0) : Type 0 where
  -- `Where(p).First(&dest)` and `Where(p).Take(&dest)`, from a destination.
  pub first : Option R → (R → Bool) → List R → Fetch R
  -- `Where(p).Scan(&dest)`, into a pointer that is nil before the call.
  pub scan : (R → Bool) → List R → Fetch R
  -- `Where(p).Count(&n)`.
  pub count : (R → Bool) → List R → Option ℕ
  -- `Create(&row)`.
  pub create : R → List R → Option (List R)
  -- `Where(p).Update(column, value)` and `Updates(map)`: the given columns are set.
  pub updates : (R → Bool) → (R → R) → List R → Option (List R)
  -- `Where(p).Updates(struct)`.
  pub updates_struct : (R → Bool) → R → List R → Option (List R)
  -- `Save(&row)`.
  pub save : R → List R → Option (List R)
  -- `Where(p).Delete(&row)`.
  pub delete : (R → Bool) → List R → Option (List R)

-- The row is in the table.
abbrev pub Has : {R : Type 0} → R → List R → Type 0
Has r [] = ⊥
Has r (x ∷ xs) = (r ≡ x) ⊎ Has r xs

-- The rows that pass the test are changed, in place.
abbrev pub changed : {R : Type 0} → (R → Bool) → (R → R) → List R → List R
changed p f = map (λ r. if p r then f r else r)

-- The documented behaviour that the theorems rely on. A query without an error has found a row that
-- passes the test, and one that fails leaves its destination, a row that is there: gorm sets a nil
-- pointer to a zero row before it asks.
pub record IsQuery {R : Type 0} (g : Gorm R) : Type 0 where
  pub first_found :
      (d : Option R) (p : R → Bool) (t : List R) {o : Option R}
      → g.first d p t ≡ (o, none)
      → (r : R) × (o ≡ some r) × (p r ≡ true) × Has r t
  pub first_failed :
      (z : R) (p : R → Bool) (t : List R) {o : Option R} {e : DbError}
      → g.first (some z) p t ≡ (o, some e)
      → o ≡ some z

-- An update that succeeds has changed the rows that pass the test, and a deletion has removed them.
pub record IsChange {R : Type 0} (g : Gorm R) : Type 0 where
  pub updates_rows :
      (p : R → Bool) (f : R → R) (t : List R) {u : List R}
      → g.updates p f t ≡ some u
      → u ≡ changed p f t
  pub delete_rows :
      (p : R → Bool) (t : List R) {u : List R} → g.delete p t ≡ some u → u ≡ keep (λ r. not (p r)) t

-- An update by a struct sets the fields of the struct that are not zero: `overlay patch row` is the
-- row with these fields.
pub record IsStructChange {R : Type 0} (g : Gorm R) (overlay : R → R → R) : Type 0 where
  pub updates_struct_rows :
      (p : R → Bool) (patch : R) (t : List R) {u : List R}
      → g.updates_struct p patch t ≡ some u
      → u ≡ changed p (overlay patch) t
