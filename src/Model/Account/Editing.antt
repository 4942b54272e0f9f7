-- ===== src/Model/Account/Editing.antt =====
-- `EditAccount` of internal/app/domain/model/account.go: three updates in one transaction.
pub mod Laws
use easymail.Base.{
  ℕ, ◌≡◌, ◌≢◌, refl, ap, sym, ◌∙◌, ◌↔◌, ◌≤◌, Bool, true, false, ◌&&◌, not, Option, none, some, List,
  map, arith, Bytes, ◌==◌, leb, ltb, length, if◌then◌else◌, Option-cases, inl, inr,
}
use easymail.Base.Int.{ℤ, pos, negsuc, leb_ℤ, ltb_ℤ}
use easymail.Model.Gorm.{Gorm, IsChange, changed}
use easymail.Model.Tables.{
  Account, Tables, Database, Failure, not_initialized, database_error, hashing_failed, Result, ok,
  failed,
}
use easymail.Model.Account.{EditAccountRequest}

-- How an edit ends: the transaction is over, with a result, or the function has returned with an
-- error and the transaction is still open.
pub data Ending : Type 0 where
  ended : Result (Unit {0}) → Ending
  left_open : Failure → Ending

-- A transaction on the accounts: its rows so far, that it could not be begun, so that every call on it
-- fails, or how the function has returned.
pub data Progress : Type 0 where
  not_begun : Progress
  running : List Account → Progress
  returned : Ending → Progress

-- Whether the request has a new password: 6 to 64 bytes.
abbrev pub sets_password : EditAccountRequest → Bool
sets_password req = leb 6 (length req.password) && leb (length req.password) 64

-- Whether the request has a new quota.
abbrev pub sets_quota : EditAccountRequest → Bool
sets_quota req =
    leb_ℤ (negsuc 0) req.storage_quota_number && ltb_ℤ req.storage_quota_number (pos 1000000)

-- The time that is written: NULL for the zero time.
abbrev pub expiry : EditAccountRequest → Option ℕ
expiry req = if req.password_expired_time == 0 then none else some req.password_expired_time

module _ (db : Database) (generate : Bytes → Option Bytes) (req : EditAccountRequest) where
  -- One update, with a rollback when it fails.
  update_row : (Account → Account) → Progress → Progress
  update_row f (returned e) = returned e
  update_row f not_begun = returned (ended (failed database_error))
  update_row f (running rows) = elim (db.accounts.updates (λ a. a.id == req.id) f rows) [
    | none ↦ returned (ended (failed database_error))
    | some rows' ↦ running rows'
  ]

  -- The return without a rollback, which leaves a transaction open if there is one.
  give_up : Progress → Progress
  give_up (returned e) = returned e
  give_up not_begun = returned (ended (failed hashing_failed))
  give_up (running rows) = returned (left_open hashing_failed)

  -- The update of the password. A hashing that fails returns without a rollback.
  edit_password : Progress → Progress
  unfolding update_row give_up
  edit_password p =
      if sets_password req
      then elim (generate req.password) [
        | none ↦ give_up p
        | some hash ↦ update_row (λ a. record a { password = hash }) p
      ]
      else p

  edit_quota : Progress → Progress
  unfolding update_row
  edit_quota p =
      if sets_quota req
      then update_row (λ a. record a { storage_quota = req.storage_quota_number }) p
      else p

  edit_expiry : Progress → Progress
  unfolding update_row
  edit_expiry p = update_row (λ a. record a { password_expire_time = expiry req }) p

  -- `tx.Commit()`.
  finish : Tables → Progress → Tables × Ending
  finish t (returned e) = (t, e)
  finish t not_begun = (t, ended (failed database_error))
  finish t (running rows) =
      if db.commit (record t { accounts = rows })
      then (record t { accounts = rows }, ended (ok tt))
      else (t, ended (failed database_error))

  -- `d.Begin()`.
  begin : Tables → Progress
  begin t = if db.begins then running t.accounts else not_begun

  -- `EditAccount(req)`.
  unfoldable pub edit_account : Tables → Tables × Ending
  unfolding finish edit_expiry edit_quota edit_password begin
  edit_account t =
      if not db.connected
      then (t, ended (failed not_initialized))
      else finish t (edit_expiry (edit_quota (edit_password (begin t))))
