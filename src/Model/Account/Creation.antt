-- ===== src/Model/Account/Creation.antt =====
-- `CreateAccount` of internal/app/domain/model/account.go.
use easymail.Base.{
  true, refl, List, ℕ, ◌<◌, ◌≡◌, ap, ◌∙◌, false, not, Option, none, some, arith, Bytes, Lacks,
  Bool-cases, guard_passed, if_false,
}
use easymail.Text.Laws.{cut-none}
use easymail.Model.Gorm.{Has}
use easymail.Model.Tables.{Domain, Account, Tables, Database, Result, ok, failed, database_error}
use easymail.Model.Address.{match_email}
use easymail.Model.Domain.{find_domain_by_id}
use easymail.Model.Account.{
  CreateAccountRequest, usable, find_account_by_name, succeeded, with_accounts, fresh, create_in,
  create_account,
}

-- A name without an `@` is no address.
pub match_email_bare : (s : Bytes) → Lacks b'@' s → match_email s ≡ false
unfolding match_email
match_email_bare s h = rw (cut-none b'@' s h, match_email)

usable_key : (d : Domain) → 0 < d.id → usable (ok (some d)) ≡ some d
unfolding usable
usable_key d h = ground arith

module _ (db : Database) where
  connected_of :
      (t : Tables) (id : ℕ) (d : Domain)
      → find_domain_by_id db id t ≡ ok (some d)
      → not db.connected ≡ false
  unfolding find_domain_by_id
  connected_of t id d e = (guard_passed (not db.connected) (λ k. cc k) e).0

  bare_not_found :
      (name : Bytes) (t : Tables)
      → Lacks b'@' name
      → succeeded (find_account_by_name db name t) ≡ false
  unfolding find_account_by_name succeeded
  bare_not_found name t h = ground (arith, match_email_bare name h, Bool-cases db.connected)

  create_bare :
      (generate : Bytes → Option Bytes) (now : ℕ) (req : CreateAccountRequest) (d : Domain)
      (t : Tables)
      → Lacks b'@' req.name
      → create_in db generate now req (some d) t ≡ elim (generate req.password) [
        | none ↦ (t, ok tt)
        | some hash ↦ with_accounts t (db.accounts.create (fresh now req d hash) t.accounts)
      ]
  unfolding create_in
  create_bare generate now req d t h = if_false _ _ _ (bare_not_found req.name t h)

  handed_over :
      (generate : Bytes → Option Bytes) (now : ℕ) (req : CreateAccountRequest) (d : Domain)
      (t : Tables)
      → Lacks b'@' req.name
      → find_domain_by_id db req.domain_id t ≡ ok (some d)
      → 0 < d.id
      → create_account db generate now req t ≡ elim (generate req.password) [
        | none ↦ (t, ok tt)
        | some hash ↦ with_accounts t (db.accounts.create (fresh now req d hash) t.accounts)
      ]
  unfolding create_account
  handed_over generate now req d t bare found key =
      if_false _ _ (not db.connected) (connected_of t req.domain_id d found)
      ∙ ap (λ o. create_in db generate now req o t) (ap usable found ∙ usable_key d key)
      ∙ create_bare generate now req d t bare

  -- The unique index on the name and the domain: no row is inserted beside one that has the same
  -- domain and a name that the database compares as equal.
  abbrev pub IsUnique : Type 0
  IsUnique =
      (r a : Account) (rows : List Account)
      → Has a rows
      → db.same_text a.username r.username ≡ true
      → a.domain_id ≡ r.domain_id
      → db.accounts.create r rows ≡ none

  refused_insert :
      (unique : IsUnique) (now : ℕ) (req : CreateAccountRequest) (d : Domain) (t : Tables)
      (a : Account) (o : Option Bytes)
      → Has a t.accounts
      → db.same_text a.username req.name ≡ true
      → a.domain_id ≡ d.id
      → ◌≡◌ {A = Tables × Result (Unit {0})}
          (elim o [
            | none ↦ (t, ok tt)
            | some hash ↦ with_accounts t (db.accounts.create (fresh now req d hash) t.accounts)
          ])
          (t, (elim o [ none ↦ ok tt | some hash ↦ failed database_error ]))
  unfolding with_accounts
  refused_insert unique now req d t a none there same_name same_domain = refl
  refused_insert unique now req d t a (some hash) there same_name same_domain =
      ap (with_accounts t) (unique (fresh now req d hash) a t.accounts there same_name same_domain)

  -- A request for a name without an `@` that an account of the same domain already has, where the
  -- domain exists and the table has its unique index on name and domain: `CreateAccount` looks the name
  -- up as an address, so it never answers that the account exists. The tables stay as they were, and the
  -- result is the database's error for the insertion, or, when the hashing of the password fails, no
  -- error at all.
  pub create_account_bare_name :
      (unique : IsUnique) (generate : Bytes → Option Bytes) (now : ℕ) (req : CreateAccountRequest)
      (d : Domain) (a : Account) (t : Tables)
      → Lacks b'@' req.name
      → find_domain_by_id db req.domain_id t ≡ ok (some d)
      → 0 < d.id
      → Has a t.accounts
      → db.same_text a.username req.name ≡ true
      → a.domain_id ≡ d.id
      → create_account db generate now req t
        ≡ (t, (elim (generate req.password) [ none ↦ ok tt | some hash ↦ failed database_error ]))
  create_account_bare_name unique generate now req d a t bare found key there same_name
        same_domain =
      handed_over generate now req d t bare found key
      ∙ refused_insert unique now req d t a (generate req.password) there same_name same_domain
