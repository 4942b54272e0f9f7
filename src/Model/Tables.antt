-- ===== src/Model/Tables.antt =====
-- The records of account.go, domain.go and email.go, and the database. Keys are not negative, and a
-- time is the number of nanoseconds since its zero value.
use easymail.Base.{ℕ, Bool, ◌&&◌, not, Option, List, Bytes}
use easymail.Base.Int.{ℤ}
use easymail.Model.Gorm.{Gorm}

-- `Domain`.
pub record Domain : Type 0 where
  pub id : ℕ
  pub name : Bytes
  pub description : Bytes
  pub active : Bool
  pub deleted : Bool
  pub create_time : ℕ
  pub update_time : ℕ
  pub delete_time : ℕ

-- `Account`, with the key of its domain for the pointer to it.
pub record Account : Type 0 where
  pub id : ℕ
  pub username : Bytes
  pub password : Bytes
  pub domain_id : ℕ
  pub active : Bool
  pub deleted : Bool
  pub update_time : ℕ
  pub delete_time : ℕ
  pub create_time : ℕ
  pub password_expire_time : Option ℕ
  pub storage_quota : ℤ

-- `ReadStatus`.
pub data ReadStatus : Type 0 where
  unread web_read imap_read : ReadStatus

-- `FolderID`.
pub data FolderId : Type 0 where
  inbox sent draft trash spam quarantine : FolderId

-- `Email`.
pub record Email : Type 0 where
  pub id : ℕ
  pub job_id : Bytes
  pub queue_id : Bytes
  pub account_id : ℕ
  pub date : ℕ
  pub sender : Bytes
  pub recipient : Bytes
  pub carbon_copy : Bytes
  pub blind_copy : Bytes
  pub subject : Bytes
  pub mail_time : ℕ
  pub save_time : ℕ
  pub save_path : Bytes
  pub size : ℤ
  pub folder_id : ℤ
  pub read_status : ReadStatus
  pub deleted : Bool
  pub delete_time : ℕ
  pub identity : Bytes

-- The tables that the operations change.
pub record Tables : Type 0 where
  pub domains : List Domain
  pub accounts : List Account
  pub emails : List Email

-- The database: whether it is initialised, its calls on each table, whether it compares two texts as
-- equal, which the collation of their columns decides, whether a transaction can be begun, the
-- key that a successful insertion writes back into a mail, and whether a transaction that leaves these
-- tables can be committed.
pub record Database : Type 0 where
  pub connected : Bool
  pub domains : Gorm Domain
  pub accounts : Gorm Account
  pub emails : Gorm Email
  pub same_text : Bytes → Bytes → Bool
  pub begins : Bool
  pub email_key : Email → List Email → ℕ
  pub commit : Tables → Bool

-- The errors that the operations return.
pub data Failure : Type 0 where
  not_initialized no_domain domain_exists no_account account_exists : Failure
  invalid_username invalid_password hashing_failed invalid_email database_error : Failure

-- A result and an error, of which one is meant.
pub data Result (A : Type 0) : Type 0 where
  ok : A → Result A
  failed : Failure → Result A

-- `ValidateDomain(domain)`.
unfoldable pub validate_domain : Domain → Bool
validate_domain d = d.active && not d.deleted

-- `ValidateAccount(acc)`.
unfoldable pub validate_account : Account → Bool
validate_account a = a.active && not a.deleted
