-- ===== src/Model/Account/Index/Laws.antt =====
-- The pages of `Index`, and its statuses.
use easymail.Base.{
  ℕ, ◌+◌, ◌≡◌, refl, subst, fun_ext, Bool, true, false, ◌&&◌, Option, none, some, List, [], ◌∷◌,
  Bytes, keep, length, suc, arith, Bool-cases,
}
use easymail.Base.Int.{ℤ, pos, negsuc, eq_ℤ}
use easymail.Model.Gorm.{Gorm}
use easymail.Model.Tables.{Account}
use easymail.Model.Listing.{Finder, IsFinder, IsCount}
use easymail.Model.Listing.Laws.{IsPage, page_of-IsPage}
use easymail.Model.Account.Index.{has_status, indexed, index}

no_keyword : (b : Bool) → (b && true) ≡ b
no_keyword true = refl
no_keyword false = refl

-- Every account has one of the three statuses.
split :
    (did : ℤ) (t : List Account)
    → length (keep (indexed did (pos 0)) t)
        + (length (keep (indexed did (pos 1)) t) + length (keep (indexed did (pos 2)) t))
      ≡ length (keep (indexed did (negsuc 0)) t)
unfolding has_status
split did [] = refl
split did (a ∷ t) = ground (
  arith,
  split did t,
  Bool-cases (eq_ℤ (pos a.domain_id) did),
  Bool-cases a.active,
  Bool-cases a.deleted,
)

module _ (g : Gorm Account) (find : Finder Account) (name_like : Bytes → Option (Account → Bool))
    (counts : IsCount g.count) (finds : IsFinder find) where
  -- A page that `Index` returns without a keyword, for an offset and a limit above 0: the total is the
  -- number of the domain's accounts of the status, there are as many rows as are left behind the
  -- offset, up to the limit, and each is an account of the domain and the status, none of them more
  -- often than in the table.
  index-IsPage :
      (did status : ℤ) (field dir : Bytes) (k n : ℕ) (t : List Account) (total : ℕ)
      (rs : List Account)
      → index true g find name_like did status [] field dir (pos k) (pos (suc n)) t
        ≡ some (total, rs)
      → IsPage (indexed did status) k (suc n) t total rs
  unfolding index
  index-IsPage did status field dir k n t total rs e =
      subst (λ p. IsPage p k (suc n) t total rs) (fun_ext (λ a. no_keyword (indexed did status a)))
        (page_of-IsPage g.count find counts finds (λ a. indexed did status a && true) field dir k n
          t total rs e)

  -- The four listings of a domain, without a keyword and for an offset and a limit above 0: of the
  -- accounts that are active, inactive, deleted, and all. Each page that is returned has the number of
  -- its accounts in the domain as its total, and as many rows as are left behind the offset, up to the
  -- limit; each row is such an account, and none stands there more often than in the table. The first
  -- three totals add up to the fourth. A count without an error counts the rows that pass its test,
  -- and a page is cut from these rows in some order.
  pub index_pages :
      (did : ℤ) (field dir : Bytes) (k n : ℕ) (t : List Account) (active inactive deleted total : ℕ)
      (r0 r1 r2 rs : List Account)
      → index true g find name_like did (pos 0) [] field dir (pos k) (pos (suc n)) t
        ≡ some (active, r0)
      → index true g find name_like did (pos 1) [] field dir (pos k) (pos (suc n)) t
        ≡ some (inactive, r1)
      → index true g find name_like did (pos 2) [] field dir (pos k) (pos (suc n)) t
        ≡ some (deleted, r2)
      → index true g find name_like did (negsuc 0) [] field dir (pos k) (pos (suc n)) t
        ≡ some (total, rs)
      → IsPage (indexed did (pos 0)) k (suc n) t active r0
        × IsPage (indexed did (pos 1)) k (suc n) t inactive r1
        × IsPage (indexed did (pos 2)) k (suc n) t deleted r2
        × IsPage (indexed did (negsuc 0)) k (suc n) t total rs
        × (active + (inactive + deleted) ≡ total)
  index_pages did field dir k n t active inactive deleted total r0 r1 r2 rs e0 e1 e2 e =
      let p0 = index-IsPage did (pos 0) field dir k n t active r0 e0 in
      let p1 = index-IsPage did (pos 1) field dir k n t inactive r1 e1 in
      let p2 = index-IsPage did (pos 2) field dir k n t deleted r2 e2 in
      let p = index-IsPage did (negsuc 0) field dir k n t total rs e in
      (p0, p1, p2, p, omega (arith, split did t, p0.whole, p1.whole, p2.whole, p.whole))

  -- Where the table of accounts has no column `name`, as it has none in the program, `Index` with a
  -- keyword returns no accounts but an error.
  pub index_keyword_fails :
      (connected : Bool) (did status : ℤ) (c : ℕ) (keyword field dir : Bytes) (page page_size : ℤ)
      (t : List Account)
      → name_like (c ∷ keyword) ≡ none
      → index connected g find name_like did status (c ∷ keyword) field dir page page_size t ≡ none
  unfolding index
  index_keyword_fails true did status c keyword field dir page page_size t h = rw h refl
  index_keyword_fails false did status c keyword field dir page page_size t h = refl
