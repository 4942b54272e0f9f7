-- ===== src/Model/Domain/Index.antt =====
-- The listings of internal/app/domain/model/domain.go.
use easymail.Base.{
  ℕ, Bool, true, ◌&&◌, ◌||◌, not, Option, none, some, List, [], ◌∷◌, Bytes, codes, is_empty,
  if◌then◌else◌,
}
use easymail.Base.Int.{ℤ, pos}
use easymail.Model.Gorm.{Gorm, Fetch, DbError, record_not_found, other_error}
use easymail.Model.Tables.{Domain, Result, ok, failed, not_initialized, no_domain}
use easymail.Model.Listing.{Finder, Page, page_of}

-- The slice that a scan leaves; only a missing record is an error.
scanned : List Domain × Option DbError → Result (List Domain)
scanned (ds, none) = ok ds
scanned (ds, some record_not_found) = failed no_domain
scanned (ds, some other_error) = ok ds

-- The pointer that a scan leaves; only a missing record is an error.
scanned_one : Fetch Domain → Result (Option Domain)
scanned_one (d, none) = ok d
scanned_one (d, some record_not_found) = failed no_domain
scanned_one (d, some other_error) = ok d

-- The time of the first row of a slice, or the zero time.
time_of : Option (List Domain) → ℕ
time_of none = 0
time_of (some []) = 0
time_of (some (d ∷ _)) = d.update_time

module _ (connected : Bool) (g : Gorm Domain) (find : Finder Domain)
    (scan_all : (Domain → Bool) → Bytes → List Domain → List Domain × Option DbError)
    (name_like : Bytes → Domain → Bool) (same_text : Bytes → Bytes → Bool) where
  -- `FindAllValidateDomain()`; `scan_all` is gorm's scan into a slice, with an order.
  unfoldable pub find_all_validate_domain : List Domain → Result (List Domain)
  unfolding scanned
  find_all_validate_domain t =
      if not connected
      then failed not_initialized
      else scanned (scan_all (λ d. d.active && not d.deleted) (codes "name") t)

  -- `FindValidateDomainByName(name)`.
  unfoldable pub find_validate_domain_by_name : Bytes → List Domain → Result (Option Domain)
  unfolding scanned_one
  find_validate_domain_by_name name t =
      if not connected
      then failed not_initialized
      else scanned_one (g.scan (λ d. same_text d.name name && (d.active && not d.deleted)) t)

  -- `IndexDomain(keyword, orderField, orderDir, page, pageSize)`; none for an error.
  unfoldable pub index_domain : Bytes → Bytes → Bytes → ℤ → ℤ → List Domain → Option (Page Domain)
  unfolding page_of
  index_domain keyword field dir page page_size t =
      if not connected
      then none
      else page_of g.count find (λ d. is_empty keyword || name_like keyword d) field dir page
          page_size t

  -- `LastUpdateDomain()`: gorm's `First` is a search for one row.
  unfoldable pub last_update_domain : List Domain → ℕ
  unfolding time_of
  last_update_domain t =
      if not connected
      then 0
      else time_of (
          find
            (record {
              rows = λ d. true;
              order = some (codes "update_time desc");
              offset = none;
              limit = some (pos 1);
            })
            t)
