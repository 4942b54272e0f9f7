-- ===== src/Model/Memory.antt =====
-- A table that is held in memory: an instance of the interface, for the tests.
use easymail.Base.{
  false, ◌||◌, ◌≡◌, refl, sym, Bool, true, not, Option, none, some, List, [], ◌∷◌, ◌++◌, arith, inl,
  inr, if◌then◌else◌, keep, length, Bool-cases, ap,
}
use easymail.Model.Gorm.{
  Gorm, Has, Fetch, DbError, IsQuery, IsChange, IsStructChange, changed, record_not_found,
}
use easymail.Model.Domain.Lookup.{some_inj}

-- The first row that passes the test.
unfoldable pub found_row : {R : Type 0} → Option R → (R → Bool) → List R → Fetch R
found_row d p [] = (d, some record_not_found)
found_row d p (r ∷ t) = let rest = found_row d p t in if p r then (some r, none) else rest

pub found_row_found :
    {R : Type 0} (d : Option R) (p : R → Bool) (t : List R) (o : Option R)
    → found_row d p t ≡ (o, none)
    → (r : R) × (o ≡ some r) × (p r ≡ true) × Has r t
unfolding found_row
found_row_found d p [] o h = absurd (cc (ap (λ r. r.1) h))
found_row_found d p (r ∷ t) o h = elim (Bool-cases (p r)) [
  | inl e ↦ (r, (ground (arith, e, h)), e, inl refl)
  | inr e ↦
      let (s, at, test, there) = found_row_found d p t o (ground (arith, e, h)) in
      (s, at, test, inr there)
]

pub found_row_failed :
    {R : Type 0} (d : Option R) (p : R → Bool) (t : List R) (o : Option R) (f : DbError)
    → found_row d p t ≡ (o, some f)
    → o ≡ d
unfolding found_row
found_row_failed d p [] o f h = ap (λ r. r.0) (sym h)
found_row_failed d p (r ∷ t) o f h = elim (Bool-cases (p r)) [
  | inl e ↦ absurd (ground (arith, e, h))
  | inr e ↦ found_row_failed d p t o f (ground (arith, e, h))
]

-- A table in memory, on which no call fails. It knows no keys, so that `save` inserts.
abbrev pub memory : {R : Type 0} → (R → R → R) → Gorm R
memory overlay = record {
  first = found_row;
  scan = found_row none;
  count = λ p t. some (length (keep p t));
  create = λ r t. some (t ++ (r ∷ []));
  updates = λ p f t. some (changed p f t);
  updates_struct = λ p patch t. some (changed p (overlay patch) t);
  save = λ r t. some (t ++ r ∷ []);
  delete = λ p t. some (keep (λ r. not (p r)) t);
}

pub memory-IsQuery : {R : Type 0} (overlay : R → R → R) → IsQuery (memory overlay)
memory-IsQuery overlay = record {
  first_found = λ d p t e. found_row_found d p t _ e;
  first_failed = λ z p t e. found_row_failed (some z) p t _ _ e;
}

pub memory-IsChange : {R : Type 0} (overlay : R → R → R) → IsChange (memory overlay)
memory-IsChange overlay = record {
  updates_rows = λ p f t e. sym (some_inj e);
  delete_rows = λ p t e. sym (some_inj e);
}

pub memory-IsStructChange :
    {R : Type 0} (overlay : R → R → R) → IsStructChange (memory overlay) overlay
memory-IsStructChange overlay = record { updates_struct_rows = λ p patch t e. sym (some_inj e) }

-- Whether a row passes the test, and an insertion that such a row stands in the way of.
abbrev pub any_row : {R : Type 0} → (R → Bool) → List R → Bool
any_row p [] = false
any_row p (r ∷ t) = p r || any_row p t

pub any_row_there :
    {R : Type 0} (p : R → Bool) (a : R) (t : List R) → Has a t → p a ≡ true → any_row p t ≡ true
any_row_there p a [] h e = absurd h
any_row_there p a (r ∷ t) (inl s) e = ground (arith, ap p s, e)
any_row_there p a (r ∷ t) (inr h) e = ground (arith, any_row_there p a t h e, Bool-cases (p r))

abbrev pub insert_unless : {R : Type 0} → (R → R → Bool) → R → List R → Option (List R)
insert_unless clash r t = if any_row (clash r) t then none else some (t ++ r ∷ [])

pub insert_clashing :
    {R : Type 0} (clash : R → R → Bool) (r a : R) (t : List R)
    → Has a t
    → clash r a ≡ true
    → insert_unless clash r t ≡ none
insert_clashing clash r a t h e = rw (any_row_there (clash r) a t h e) refl
