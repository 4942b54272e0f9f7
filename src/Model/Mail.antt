-- ===== src/Model/Mail.antt =====
-- internal/app/domain/model/email.go, and the operations of account.go on one mail.
pub mod Reading
pub mod Laws
use easymail.Base.{
  ℕ, ◌+◌, Bool, true, false, ◌&&◌, ◌||◌, not, Option, none, some, List, [], ◌∷◌, ◌==◌, is_empty,
  if◌then◌else◌,
}
use easymail.Base.Int.{ℤ, pos}
use easymail.Model.Gorm.{Fetch}
use easymail.Model.Tables.{
  ReadStatus, unread, web_read, imap_read, FolderId, inbox, sent, draft, trash, spam, quarantine,
  Email, Tables, Database, not_initialized, invalid_email, database_error, Result, ok, failed,
}

-- `&Email{}`.
abbrev pub zero_email : Email
zero_email = record {
  id = 0;
  job_id = [];
  queue_id = [];
  account_id = 0;
  date = 0;
  sender = [];
  recipient = [];
  carbon_copy = [];
  blind_copy = [];
  subject = [];
  mail_time = 0;
  save_time = 0;
  save_path = [];
  size = pos 0;
  folder_id = pos 0;
  read_status = unread;
  deleted = false;
  delete_time = 0;
  identity = [];
}

-- `account_id = ? AND id = ?`.
abbrev pub is_mail : ℕ → ℕ → Email → Bool
is_mail account_id id e = e.account_id == account_id && e.id == id

abbrev pub is_unread : ReadStatus → Bool
is_unread unread = true
is_unread web_read = false
is_unread imap_read = false

-- The number of a folder.
abbrev pub folder_number : FolderId → ℤ
folder_number inbox = pos 0
folder_number sent = pos 1
folder_number draft = pos 2
folder_number trash = pos 3
folder_number spam = pos 4
folder_number quarantine = pos 5

-- The new table of mails, or the error of the call.
unfoldable pub with_emails : Tables → Option (List Email) → Tables × Result (Unit {0})
with_emails t none = (t, failed database_error)
with_emails t (some es) = (record t { emails = es }, ok tt)

-- The new table of mails with the mail that the caller passed by its pointer, which takes its key, or
-- the error of the call.
unfoldable pub with_inserted :
    Tables → Email → ℕ → Option (List Email) → (Tables × Email) × Result (Unit {0})
with_inserted t e key none = ((t, e), failed database_error)
with_inserted t e key (some es) = ((record t { emails = es }, record e { id = key }), ok tt)

module _ (db : Database) where
  -- `SaveEmail(email)`: the tables and the caller's mail, and the result.
  unfoldable pub save_email : Email → Tables → (Tables × Email) × Result (Unit {0})
  unfolding with_inserted
  save_email e t =
      if not db.connected
      then ((t, e), failed not_initialized)
      else if e.account_id == 0 || (is_empty e.job_id || is_empty e.identity)
      then ((t, e), failed invalid_email)
      else with_inserted t e (db.email_key e t.emails) (db.emails.create e t.emails)

  -- `DeleteMail(accID, mailID)`.
  unfoldable pub delete_mail : ℕ → ℕ → ℕ → Tables → Tables × Result (Unit {0})
  unfolding with_emails
  delete_mail now account_id id t =
      if not db.connected
      then (t, failed not_initialized)
      else with_emails t (
          db.emails.updates (is_mail account_id id)
            (λ e. record e { deleted = true; delete_time = now }) t.emails)

  -- `MoveMail(accID, mailID, fid)`.
  unfoldable pub move_mail : ℕ → ℕ → FolderId → Tables → Tables × Result (Unit {0})
  unfolding with_emails
  move_mail account_id id folder t =
      if not db.connected
      then (t, failed not_initialized)
      else with_emails t (
          db.emails.updates (is_mail account_id id)
            (λ e. record e { folder_id = folder_number folder }) t.emails)

  -- `MarkRead(accID, mailID, readSource)`.
  unfoldable pub mark_read : ℕ → ℕ → ReadStatus → Tables → Tables × Result (Unit {0})
  unfolding with_emails
  mark_read account_id id status t =
      if not db.connected
      then (t, failed not_initialized)
      else with_emails t (
          db.emails.updates (λ e. is_mail account_id id e && is_unread e.read_status)
            (λ e. record e { read_status = status }) t.emails)

  -- `GetMailQuantity(accID)`.
  unfoldable pub get_mail_quantity : ℕ → Tables → Result ℕ
  get_mail_quantity account_id t =
      if not db.connected
      then failed not_initialized
      else elim (db.emails.count (λ e. e.account_id == account_id) t.emails) [
        | none ↦ failed database_error
        | some n ↦ ok n
      ]

  -- What `GetMail` returns for its query.
  fetched : Fetch Email → Result (Option Email)
  fetched (e, none) = ok e
  fetched (e, some failure) = failed database_error

  -- `GetMail(accID, mailID)`.
  unfoldable pub get_mail : ℕ → ℕ → Tables → Result (Option Email)
  unfolding fetched
  get_mail account_id id t =
      if not db.connected
      then failed not_initialized
      else fetched (db.emails.first (some zero_email) (is_mail account_id id) t.emails)
