-- ===== src/Model/Listing.antt =====
-- The listings of internal/app/domain/model, which share one shape: some Where clauses, a count, an
-- order, an offset and a limit. The end of such a query, gorm's `Find` into a slice, is a parameter.
pub mod Laws
pub mod Memory
pub mod Tests
use easymail.Base.{
  ℕ, suc, ◌≡◌, Bool, ◌||◌, Option, none, some, List, [], ◌∷◌, ◌++◌, Bytes, is_empty, keep, length,
  take, drop, if◌then◌else◌,
}
use easymail.Base.Int.{ℤ, pos}

-- A query: its test on rows, the text of its order, its offset and its limit.
pub record Search (R : Type 0) : Type 0 where
  pub rows : R → Bool
  pub order : Option Bytes
  pub offset : Option ℤ
  pub limit : Option ℤ

-- `Find(&rows)` of a query; none for an error.
abbrev pub Finder : Type 0 → Type 0
Finder R = Search R → List R → Option (List R)

-- Every test holds of as many rows of the one as of the other.
abbrev pub SameRows : {R : Type 0} → List R → List R → Type 0
SameRows {R} xs ys = (q : R → Bool) → length (keep q xs) ≡ length (keep q ys)

-- The documented behaviour that the theorems rely on: without an offset and a limit, the rows that
-- pass the test, in some order; with an offset and a limit that is not 0, these rows from the offset
-- on, up to the limit.
pub record IsFinder {R : Type 0} (find : Finder R) : Type 0 where
  pub found_all :
      (p : R → Bool) (order : Option Bytes) (t : List R) {rs : List R}
      → find (record { rows = p; order = order; offset = none; limit = none }) t ≡ some rs
      → SameRows rs (keep p t)
  pub found_page :
      (p : R → Bool) (order : Option Bytes) (k n : ℕ) (t : List R) {rs : List R}
      → find
          (record { rows = p; order = order; offset = some (pos k); limit = some (pos (suc n)) })
          t
        ≡ some rs
      → (all : List R) × SameRows all (keep p t) × (rs ≡ take (suc n) (drop k all))

-- `Count(&n)`, without an error, counts the rows that pass the test.
pub record IsCount {R : Type 0} (count : (R → Bool) → List R → Option ℕ) : Type 0 where
  pub counted : (p : R → Bool) (t : List R) {n : ℕ} → count p t ≡ some n → n ≡ length (keep p t)

-- `fmt.Sprintf("%s %s", orderField, orderDir)`, if neither is empty.
abbrev pub order_of : Bytes → Bytes → Option Bytes
order_of field dir = if is_empty field || is_empty dir then none else some (field ++ (b' ' ∷ dir))

-- The total and the rows of a page.
abbrev pub Page : Type 0 → Type 0
Page R = ℕ × List R

-- The rows behind a count that succeeded.
abbrev with_total : {R : Type 0} → ℕ → Option (List R) → Option (Page R)
with_total n none = none
with_total n (some rs) = some (n, rs)

-- The end that the listings share: the count, the order, the page, and the rows. An error of the
-- count stays with the query, so that its end fails too.
unfoldable pub page_of :
    {R : Type 0}
    → ((R → Bool) → List R → Option ℕ)
    → Finder R
    → (R → Bool)
    → Bytes
    → Bytes
    → ℤ
    → ℤ
    → List R
    → Option (Page R)
page_of count find p field dir page page_size t = elim (count p t) [
  | none ↦ none
  | some n ↦ with_total n (
      find
        (record {
          rows = p;
          order = order_of field dir;
          offset = some page;
          limit = some page_size;
        })
        t)
]
