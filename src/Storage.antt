-- ===== src/Storage.antt =====
-- internal/app/service/storage/local.go: mails as files below a directory, with a row each in the table
-- of mails. google/uuid is not part of the repository: `parse_id` is the number that `ID()` gives for a
-- text that `Parse` takes. What the operating system answers is an argument.
pub mod Reading
pub mod Laws
pub mod Leaves
pub mod Place
pub mod Tests
use easymail.Base.{
  ℕ, ◌%◌, Bool, true, false, ◌&&◌, not, Option, none, some, List, [], ◌∷◌, ◌++◌, Bytes, codes,
  is_empty, Dict, insert, take, ◌==◌, if◌then◌else◌,
}
use easymail.Base.Int.{ℤ, eq_ℤ}
use easymail.Text.{decimal}
use easymail.Text.Path.{join_path}
use easymail.Model.Tables.{
  Domain, Account, Email, Tables, Database, Failure, Result, ok, failed, validate_domain,
  validate_account,
}
use easymail.Model.Account.{find_account_by_name}
use easymail.Model.Domain.{find_domain_by_id}
use easymail.Model.Mail.{save_email, is_unread}

-- `LocalStorage`, without its lock; the database is there or not.
pub record LocalStorage : Type 0 where
  pub app_root : Bytes
  pub base_dir : Bytes
  pub has_db : Bool

-- `NewLocalStorage(appRoot, baseDir, db)`.
abbrev pub new_local_storage : Bytes → Bytes → Bool → LocalStorage
new_local_storage app_root base_dir has_db = record {
  app_root = app_root;
  base_dir = base_dir;
  has_db = has_db;
}

-- The errors of `Save`.
pub data Refusal : Type 0 where
  name_empty account_not_found account_disabled domain_not_found domain_disabled : Refusal
  job_id_invalid no_directory no_file copy_failed : Refusal
  row_refused : Failure → Refusal

-- How `Save` ends; a nil pointer to an account or a domain panics.
pub data Ending : Type 0 where
  saved : Bytes → Ending
  refused : Refusal → Ending
  panicked : Ending

-- Whether the directories can be made and the file be created, the directories that the attempt makes
-- on either outcome, and the number of bytes behind which the copy fails, if it does.
pub record Disk : Type 0 where
  pub makes : Bool
  pub made : List Bytes
  pub creates : Bool
  pub breaks : Option ℕ

-- The directories, the files, the tables, and the mail that the caller passed by its pointer.
pub record World : Type 0 where
  pub dirs : List Bytes
  pub files : Dict Bytes
  pub tables : Tables
  pub email : Email

-- The directory of a mail, from the number of its job.
unfoldable pub directory : Bytes → Domain → Account → ℕ → Bytes
unfolding decimal join_path
directory base d a h = join_path (
    base
    ∷ (d.name ++ (b'/' ∷ (a.username ++ (b'/' ∷ (decimal (h % 32) ++ (b'/' ∷ decimal (h % 64)))))))
    ∷ [])

-- The mail as it is recorded.
unfoldable pub recorded : ℕ → Account → Bytes → Email → Email
recorded now a path e = record e {
  identity = path;
  account_id = a.id;
  save_time = now;
  save_path = path;
}

module _ (db : Database) (parse_id : Bytes → Option ℕ) where
  -- The end of `Save`, behind the copy.
  insert_row : Bytes → World → (Tables × Email) × Result (Unit {0}) → World × Ending
  insert_row path w ((t, e), ok _) = (record w { tables = t; email = e }, saved path)
  insert_row path w ((t, e), failed f) =
      (record w { tables = t; email = e }, refused (row_refused f))

  -- The copy, and what follows it; a copy that fails has written some bytes.
  copy_mail : ℕ → Account → Bytes → Bytes → Option ℕ → World → World × Ending
  unfolding recorded insert_row
  copy_mail now a path content (some n) w =
      (record w { files = insert path (take n content) w.files }, refused copy_failed)
  copy_mail now a path content none w =
      insert_row path (record w { files = insert path content w.files })
        (save_email db (recorded now a path w.email) w.tables)

  -- From the creation of the file on.
  save_at : ℕ → Account → Bytes → Bytes → Disk → World → World × Ending
  unfolding copy_mail
  save_at now a path content disk w =
      if not disk.creates then (w, refused no_file) else copy_mail now a path content disk.breaks w

  -- The state behind `os.MkdirAll`.
  with_dirs : Disk → World → World
  with_dirs disk w = record w { dirs = w.dirs ++ disk.made }

  -- From the parsing of the job on.
  save_job : LocalStorage → ℕ → Account → Domain → Bytes → Disk → World → Option ℕ → World × Ending
  unfolding save_at directory with_dirs
  save_job s now a d content disk w none = (w, refused job_id_invalid)
  save_job s now a d content disk w (some h) =
      if not disk.makes
      then (with_dirs disk w, refused no_directory)
      else save_at now a (join_path (directory s.base_dir d a h ∷ w.email.job_id ∷ [])) content disk
          (with_dirs disk w)

  -- What `Save` does with the domain that it looked up.
  save_domain :
      LocalStorage → ℕ → Account → Bytes → Disk → World → Result (Option Domain) → World × Ending
  unfolding save_job
  save_domain s now a content disk w (failed _) = (w, refused domain_not_found)
  save_domain s now a content disk w (ok none) = (w, panicked)
  save_domain s now a content disk w (ok (some d)) =
      if not (validate_domain d)
      then (w, refused domain_disabled)
      else save_job s now a d content disk w (parse_id w.email.job_id)

  -- What `Save` does with the account that it looked up.
  save_account : LocalStorage → ℕ → Bytes → Disk → World → Result (Option Account) → World × Ending
  unfolding save_domain
  save_account s now content disk w (failed _) = (w, refused account_not_found)
  save_account s now content disk w (ok none) = (w, panicked)
  save_account s now content disk w (ok (some a)) =
      if not (validate_account a)
      then (w, refused account_disabled)
      else save_domain s now a content disk w (find_domain_by_id db a.domain_id w.tables)

  -- `Save(accountName, email, content)`.
  unfoldable pub save : LocalStorage → ℕ → Bytes → Bytes → Disk → World → World × Ending
  unfolding save_account
  save s now name content disk w =
      if is_empty name
      then (w, refused name_empty)
      else save_account s now content disk w (find_account_by_name db name w.tables)

-- The mails of a page, from the order, the limit and the offset: the end of gorm's query.
abbrev pub Listing : Type 0
Listing = Option (Bytes × Bytes) → ℤ → ℤ → (Email → Bool) → List Email → Option (List Email)

-- `account_id = ? AND folder_id = ?`.
abbrev pub is_in : ℕ → ℤ → Email → Bool
is_in account_id folder_id e = e.account_id == account_id && eq_ℤ e.folder_id folder_id

-- What `Query` asks its last query for, behind the counts.
listed : Option ℕ → Option ℕ → Option (List Email) → Option ((ℕ × ℕ) × List Email)
listed (some total) (some news) (some es) = some ((total, news), es)
listed _ _ _ = none

-- `Query(accID, folderID, orderField, orderDir, page, pageSize)`, without what it returns with an
-- error: the mails of the folder, those not read, and a page that starts at the row `page`.
unfoldable pub query :
    Database
    → Listing
    → LocalStorage
    → ℕ
    → ℤ
    → Bytes
    → Bytes
    → ℤ
    → ℤ
    → List Email
    → Option ((ℕ × ℕ) × List Email)
unfolding listed
query db listing s account_id folder_id field dir page page_size es =
    if not s.has_db
    then none
    else let order =
        if not (is_empty field) && not (is_empty dir) then some (field, dir) else none in
      listed (db.emails.count (is_in account_id folder_id) es)
        (db.emails.count (λ e. is_in account_id folder_id e && is_unread e.read_status) es)
        (listing order page_size page (is_in account_id folder_id) es)
