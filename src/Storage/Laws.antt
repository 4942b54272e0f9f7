-- ===== src/Storage/Laws.antt =====
-- When a mail is saved and what is left then, and what a `Save` that fails leaves behind.
use easymail.Base.{◌++◌, ℕ, ◌≡◌, true, Option, none, some, [], ◌∷◌, Bytes, insert}
use easymail.Text.Path.{join_path}
use easymail.Model.Tables.{
  Domain, Account, Tables, Database, Result, ok, validate_domain, validate_account,
}
use easymail.Model.Domain.{find_domain_by_id}
use easymail.Model.Mail.{save_email}
use easymail.Storage.{LocalStorage, Disk, World, directory, recorded}

module _ (db : Database) (parse_id : Bytes → Option ℕ) where
  -- The file and the row of a mail are written at a path.
  abbrev pub Lands : ℕ → Account → Bytes → Bytes → Disk → World → World → Type 0
  Lands now a path content disk w w' =
      (disk.creates ≡ true)
      × (disk.breaks ≡ none)
      × (save_email db (recorded now a path w.email) w.tables ≡ ((w'.tables, w'.email), ok tt))
      × (w'.files ≡ insert path content w.files)
      × (w'.dirs ≡ w.dirs ++ disk.made)
      × (w'.email ≡ record (recorded now a path w.email) {
        id = db.email_key (recorded now a path w.email) w.tables.emails;
      })

  -- The mail has a job, a directory and a path, and lands there.
  abbrev pub Stored :
      LocalStorage → ℕ → Account → Domain → Bytes → Disk → World → World → Bytes → Type 0
  Stored s now a d content disk w w' path =
      (h : ℕ) × (parse_id w.email.job_id ≡ some h)
      × (disk.makes ≡ true)
      × (path ≡ join_path (directory s.base_dir d a h ∷ w.email.job_id ∷ []))
      × Lands now a path content disk w w'

  -- The mail has an account and a domain that are active, and is stored in their directory.
  abbrev pub Owned :
      LocalStorage → ℕ → Bytes → Disk → World → World → Bytes → Result (Option Account) → Type 0
  Owned s now content disk w w' path r =
      (a : Account) × (r ≡ ok (some a))
      × (validate_account a ≡ true)
      × (d : Domain) × (find_domain_by_id db a.domain_id w.tables ≡ ok (some d))
      × (validate_domain d ≡ true)
      × Stored s now a d content disk w w' path
