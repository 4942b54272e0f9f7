-- ===== src/Model/Account/Index.antt =====
-- `Index` and the lookups by key of internal/app/domain/model/account.go.
pub mod Laws
use easymail.Base.{
  ℕ, ◌+◌, ◌≡◌, refl, ap, ◌∙◌, Bool, true, false, ◌&&◌, not, Option, none, some, List, [], ◌∷◌,
  Bytes, is_empty, keep, length, suc, arith, if◌then◌else◌, Bool-cases, inl, inr, ◌==◌,
}
use easymail.Base.Int.{ℤ, pos, negsuc, eq_ℤ, ltb_ℤ}
use easymail.Model.Gorm.{Gorm, Fetch}
use easymail.Model.Tables.{Account}
use easymail.Model.Account.{zero_account}
use easymail.Model.Listing.{Finder, IsFinder, IsCount, Page, page_of}
use easymail.Model.Listing.Laws.{IsPage, page_of-IsPage}

-- The Where clause of a status: any above 2 and any below 0 has none.
unfoldable pub has_status : ℤ → Account → Bool
has_status status a =
    if not (ltb_ℤ (negsuc 0) status)
    then true
    else if eq_ℤ status (pos 0)
    then a.active && not a.deleted
    else if eq_ℤ status (pos 1)
    then not a.active && not a.deleted
    else if eq_ℤ status (pos 2)
    then a.deleted
    else true

-- The rows of `Index`, besides the keyword.
abbrev pub indexed : ℤ → ℤ → Account → Bool
indexed did status a = eq_ℤ (pos a.domain_id) did && has_status status a

-- The destination of a query, and whether it had an error.
with_error : Fetch Account → Option Account × Bool
with_error (a, none) = (a, false)
with_error (a, some e) = (a, true)

module _ (connected : Bool) (g : Gorm Account) (find : Finder Account)
    (name_like : Bytes → Option (Account → Bool)) where
  -- The clause on a keyword, as the database reads `name LIKE ?`; none when it knows no such column.
  abbrev keyword_clause : Bytes → Option (Account → Bool)
  keyword_clause keyword = if is_empty keyword then some (λ a. true) else name_like keyword

  -- `Index(did, status, keyword, orderField, orderDir, page, pageSize)`.
  unfoldable pub index :
      ℤ → ℤ → Bytes → Bytes → Bytes → ℤ → ℤ → List Account → Option (Page Account)
  unfolding page_of has_status
  index did status keyword field dir page page_size t =
      if not connected then none else elim (keyword_clause keyword) [
        | none ↦ none
        | some likes ↦
            page_of g.count find (λ a. indexed did status a && likes a) field dir page page_size t
      ]

  -- `FindAccountByID(id)`: the pointer that the scan leaves, and whether there is an error.
  unfoldable pub find_account_by_id : ℕ → List Account → Option Account × Bool
  unfolding with_error
  find_account_by_id id t =
      if not connected then (none, true) else with_error (g.scan (λ a. a.id == id) t)

  -- `GetAccountByID(i)`.
  unfoldable pub get_account_by_id : ℕ → List Account → Option Account × Bool
  unfolding with_error
  get_account_by_id id t =
      if not connected
      then (none, true)
      else with_error (g.first (some zero_account) (λ a. a.id == id) t)
