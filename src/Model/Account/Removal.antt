-- ===== src/Model/Account/Removal.antt =====
-- `DeleteAccount` of internal/app/domain/model/account.go as one transaction.
use easymail.Base.{
  ℕ, ◌≡◌, ◌≢◌, refl, ◌⊎◌, inl, inr, Bool, true, false, not, Option, none, some, List, arith, ◌==◌,
  if◌then◌else◌,
}
use easymail.Model.Gorm.{IsChange, changed}
use easymail.Model.Tables.{
  Account, Email, Tables, Database, not_initialized, database_error, Result, ok, failed,
}
use easymail.Model.Account.{committed, mark_account, delete_account}

-- The mails of the account and the account are marked deleted, each with its time, and nothing else is
-- changed.
abbrev pub Marked : ℕ → ℕ → ℕ → Tables → Tables → Type 0
Marked now later id t u =
    (u.emails
      ≡ changed (λ e. e.account_id == id) (λ e. record e { deleted = true; delete_time = now })
          t.emails)
    × (u.accounts
        ≡ changed (λ a. a.id == id) (λ a. record a { deleted = true; delete_time = later })
            t.accounts)
    × (u.domains ≡ t.domains)

-- A call either fails and changes nothing, or succeeds and leaves a marked database.
abbrev pub Marks : ℕ → ℕ → ℕ → Tables → Tables × Result (Unit {0}) → Type 0
Marks now later id t (u, r) = ((r ≢ ok tt) × (u ≡ t)) ⊎ ((r ≡ ok tt) × Marked now later id t u)

module _ (now later id : ℕ) (t : Tables) where
  Marks-guarded :
      (c : Bool) (x : Tables × Result (Unit {0}))
      → Marks now later id t x
      → Marks now later id t (if not c then (t, failed not_initialized) else x)
  Marks-guarded true x h = h
  Marks-guarded false x h = inl ((ground arith), refl)

  Marks-committed :
      (u : Tables) (c : Bool)
      → Marked now later id t u
      → Marks now later id t (if c then (u, ok tt) else (t, failed database_error))
  Marks-committed u true h = inr (refl, h)
  Marks-committed u false h = inl ((ground arith), refl)

module _ (db : Database) (now later id : ℕ) (t : Tables) where
  Marks-accounts :
      (es : List Email) (o : Option (List Account))
      → es
        ≡ changed
            (λ e. e.account_id == id)
            (λ e. record e { deleted = true; delete_time = now })
            t.emails
      → ((as' : List Account)
          → o ≡ some as'
          → as'
            ≡ changed
                (λ a. a.id == id)
                (λ a. record a { deleted = true; delete_time = later })
                t.accounts)
      → Marks now later id t (elim o [
        | none ↦ (t, failed database_error)
        | some as' ↦ committed db t (record t { emails = es; accounts = as' })
      ])
  unfolding committed
  Marks-accounts es none he ha = inl ((ground arith), refl)
  Marks-accounts es (some as') he ha = Marks-committed now later id t _ _ (he, ha as' refl, refl)

  Marks-emails :
      (accounts : IsChange db.accounts) (o : Option (List Email))
      → ((es : List Email)
          → o ≡ some es
          → es
            ≡ changed
                (λ e. e.account_id == id)
                (λ e. record e { deleted = true; delete_time = now })
                t.emails)
      → Marks now later id t (elim o [
        | none ↦ (t, failed database_error)
        | some es ↦ mark_account db later id t (record t { emails = es })
      ])
  unfolding mark_account
  Marks-emails accounts none he = inl ((ground arith), refl)
  Marks-emails accounts (some es) he =
      Marks-accounts es _ (he es refl) (λ as' e. accounts.updates_rows _ _ t.accounts e)

-- If an update that succeeds has changed the rows that it names and no others, `DeleteAccount` marks the account and all its mails deleted, the mails with the time of
-- the first reading of the clock and the account with that of the second, and changes no other row, or it fails and leaves every table as it was: no account is deleted without its mails.
pub delete_account_atomic :
    (db : Database) (emails : IsChange db.emails) (accounts : IsChange db.accounts)
    (now later id : ℕ) (t : Tables)
    → Marks now later id t (delete_account db now later id t)
unfolding delete_account
delete_account_atomic db emails accounts now later id t =
    Marks-guarded now later id t db.connected _
      (Marks-emails db now later id t accounts _ (λ es e. emails.updates_rows _ _ t.emails e))
