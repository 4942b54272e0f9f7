-- ===== src/Model/Account.antt =====
-- internal/app/domain/model/account.go: accounts, their credentials and their removal. bcrypt is not
-- part of the repository: `verify` is its comparison and `generate` its hashing.
pub mod Passwords
pub mod Index
pub mod Laws
pub mod Creation
pub mod Removal
pub mod Editing
use easymail.Base.{
  ℕ, Bool, true, false, ◌&&◌, ◌||◌, not, Option, none, some, List, [], ◌∷◌, Bytes, ◌==◌, leb, ltb,
  same, if◌then◌else◌, length,
}
use easymail.Base.Int.{ℤ, pos, negsuc, leb_ℤ, ltb_ℤ}
use easymail.Text.{split_two, to_lower}
use easymail.Model.Gorm.{Fetch, record_not_found, other_error}
use easymail.Model.Tables.{
  Domain, Account, Email, Tables, Database, Failure, not_initialized, no_domain, no_account,
  account_exists, invalid_username, invalid_password, database_error, Result, ok, failed,
}
use easymail.Model.Address.{match_email}
use easymail.Model.Domain.{find_domain_by_id, find_domain_by_name}

-- `CreateAccountRequest`, as far as `CreateAccount` reads it.
pub record CreateAccountRequest : Type 0 where
  pub name : Bytes
  pub domain_id : ℕ
  pub password : Bytes
  pub storage_quota : ℤ
  pub password_expired_time : ℕ

-- `EditAccountRequest`, as far as `EditAccount` reads it.
pub record EditAccountRequest : Type 0 where
  pub id : ℕ
  pub password : Bytes
  pub storage_quota_number : ℤ
  pub password_expired_time : ℕ

-- `&Account{}`.
abbrev pub zero_account : Account
zero_account = record {
  id = 0;
  username = [];
  password = [];
  domain_id = 0;
  active = false;
  deleted = false;
  update_time = 0;
  delete_time = 0;
  create_time = 0;
  password_expire_time = some 0;
  storage_quota = pos 0;
}

-- The domain that a lookup found: a pointer that is not nil, with a key that is not 0.
usable : Result (Option Domain) → Option Domain
usable (ok (some d)) = if d.id == 0 then none else some d
usable (ok none) = none
usable (failed e) = none

-- What `FindAccountByName` makes of its query: only a missing record is an error.
settled : Fetch Account → Result (Option Account)
settled (a, none) = ok a
settled (a, some record_not_found) = failed no_account
settled (a, some other_error) = ok a

-- The query of `FindAccountByName`, where the database compares the names.
abbrev pub enabled : Database → Bytes → ℕ → Account → Bool
enabled db local domain_id a =
    db.same_text a.username local && (a.domain_id == domain_id && (a.active && not a.deleted))

-- What `Authorize` does with the account; none is the panic on a nil pointer.
check_password : (Bytes → Bytes → Bool) → Bytes → Result (Option Account) → Option (Result Account)
check_password verify password (failed e) = some (failed e)
check_password verify password (ok none) = none
check_password verify password (ok (some a)) =
    some (if verify a.password password then ok a else failed invalid_password)

-- Whether a lookup returned no error.
succeeded : Result (Option Account) → Bool
succeeded (ok a) = true
succeeded (failed e) = false

-- The new table of accounts, or the error of the call.
pub with_accounts : Tables → Option (List Account) → Tables × Result (Unit {0})
with_accounts t none = (t, failed database_error)
with_accounts t (some as') = (record t { accounts = as' }, ok tt)

-- The row that `CreateAccount` writes; the database takes the key of the domain from the domain.
abbrev pub fresh : ℕ → CreateAccountRequest → Domain → Bytes → Account
fresh now req d hash = record {
  id = 0;
  username = req.name;
  password = hash;
  domain_id = d.id;
  active = true;
  deleted = false;
  update_time = now;
  delete_time = 0;
  create_time = now;
  password_expire_time = some req.password_expired_time;
  storage_quota = req.storage_quota;
}

module _ (db : Database) where
  -- The query, once the domain is looked up.
  find_in_domain : Bytes → Option Domain → Tables → Result (Option Account)
  unfolding settled
  find_in_domain local none t = failed no_domain
  find_in_domain local (some d) t =
      settled (db.accounts.first (some zero_account) (enabled db local d.id) t.accounts)

  -- What follows the split of the name.
  find_parts : List Bytes → Tables → Result (Option Account)
  unfolding find_in_domain find_domain_by_name usable
  find_parts (local ∷ host ∷ []) t = find_in_domain local (usable (find_domain_by_name db host t)) t
  find_parts _ t = failed invalid_username

  -- `FindAccountByName(username)`.
  unfoldable pub find_account_by_name : Bytes → Tables → Result (Option Account)
  unfolding find_parts match_email to_lower split_two
  find_account_by_name username t =
      if not db.connected
      then failed not_initialized
      else if not (match_email username)
      then failed invalid_username
      else find_parts (split_two b'@' (to_lower username)) t

  -- `Authorize(username, password)`.
  unfoldable pub authorize :
      (Bytes → Bytes → Bool) → Bytes → Bytes → Tables → Option (Result Account)
  unfolding check_password find_account_by_name
  authorize verify username password t =
      check_password verify password (find_account_by_name username t)

  -- The rest of `CreateAccount` once the domain is known. When the hashing fails, the error is lost.
  create_in :
      (Bytes → Option Bytes)
      → ℕ
      → CreateAccountRequest
      → Option Domain
      → Tables
      → Tables × Result (Unit {0})
  unfolding find_account_by_name succeeded with_accounts
  create_in generate now req none t = (t, failed no_domain)
  create_in generate now req (some d) t =
      if succeeded (find_account_by_name req.name t)
      then (t, failed account_exists)
      else elim (generate req.password) [
        | none ↦ (t, ok tt)
        | some hash ↦ with_accounts t (db.accounts.create (fresh now req d hash) t.accounts)
      ]

  -- `CreateAccount(req)`.
  unfoldable pub create_account :
      (Bytes → Option Bytes) → ℕ → CreateAccountRequest → Tables → Tables × Result (Unit {0})
  unfolding create_in usable find_domain_by_id
  create_account generate now req t =
      if not db.connected
      then (t, failed not_initialized)
      else create_in generate now req (usable (find_domain_by_id db req.domain_id t)) t

  -- `CountDomainAccount(id)`.
  unfoldable pub count_domain_account : ℕ → Tables → Result ℕ
  count_domain_account id t =
      if not db.connected
      then failed not_initialized
      else elim (db.accounts.count (λ a. a.domain_id == id) t.accounts) [
        | none ↦ failed database_error
        | some n ↦ ok n
      ]

  -- What `ToggleAccount` does with the account that it read.
  toggle_read : ℕ → Tables → Fetch Account → Tables × Result (Unit {0})
  unfolding with_accounts
  toggle_read id t (some a, none) =
      with_accounts t
        (db.accounts.updates (λ e. e.id == id) (λ e. record e { active = not a.active }) t.accounts)
  toggle_read id t (none, none) = (t, failed database_error)
  toggle_read id t (a, some e) = (t, failed database_error)

  -- `ToggleAccount(id)`.
  unfoldable pub toggle_account : ℕ → Tables → Tables × Result (Unit {0})
  unfolding toggle_read
  toggle_account id t =
      if not db.connected
      then (t, failed not_initialized)
      else toggle_read id t (db.accounts.first (some zero_account) (λ a. a.id == id) t.accounts)

  -- `tx.Commit()`: the transaction's tables, or the tables of before.
  committed : Tables → Tables → Tables × Result (Unit {0})
  committed before after =
      if db.commit after then (after, ok tt) else (before, failed database_error)

  -- The rest of `DeleteAccount` once the mails are marked.
  mark_account : ℕ → ℕ → Tables → Tables → Tables × Result (Unit {0})
  unfolding committed
  mark_account now id before t =
      elim (db.accounts.updates (λ a. a.id == id)
        (λ a. record a { deleted = true; delete_time = now }) t.accounts) [
          | none ↦ (before, failed database_error)
          | some as' ↦ committed before (record t { accounts = as' })
        ]

  -- `DeleteAccount(id)`, which reads the clock twice.
  unfoldable pub delete_account : ℕ → ℕ → ℕ → Tables → Tables × Result (Unit {0})
  unfolding mark_account
  delete_account now later id t =
      if not db.connected
      then (t, failed not_initialized)
      else elim (db.emails.updates (λ e. e.account_id == id)
          (λ e. record e { deleted = true; delete_time = now }) t.emails) [
            | none ↦ (t, failed database_error)
            | some es ↦ mark_account later id t (record t { emails = es })
          ]
