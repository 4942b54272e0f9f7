-- ===== src/Storage/Leaves.antt =====
-- What `Save` leaves behind when it does not save.
use easymail.Base.{
  ◌++◌, ap, ◌∙◌, ℕ, ◌≡◌, refl, Bool, true, false, not, Option, none, some, List, [], ◌∷◌, Bytes,
  insert, take, is_empty, ◌||◌, ◌==◌, if◌then◌else◌,
}
use easymail.Text.Path.{join_path}
use easymail.Model.Tables.{
  Domain, Account, Email, Tables, Database, Failure, Result, ok, failed, validate_domain,
  validate_account,
}
use easymail.Model.Account.{find_account_by_name}
use easymail.Model.Domain.{find_domain_by_id}
use easymail.Model.Mail.{save_email, with_inserted}
use easymail.Storage.{
  LocalStorage, Refusal, name_empty, account_not_found, account_disabled, domain_not_found,
  domain_disabled, job_id_invalid, no_directory, no_file, copy_failed, row_refused, Ending, saved,
  refused, panicked, Disk, World, with_dirs, directory, recorded, insert_row, copy_mail, save_at,
  save_job, save_domain, save_account, save,
}

-- A file that was begun.
abbrev pub Begun : List Bytes → Bytes → World → World → Type 0
Begun made content w w' =
    (path : Bytes) × (n : ℕ) × (w'.tables ≡ w.tables)
    × (w'.email ≡ w.email)
    × (w'.files ≡ insert path (take n content) w.files)
    × (w'.dirs ≡ w.dirs ++ made)

-- A file that was written, and that the caller's mail names, without a row.
abbrev pub Orphan : List Bytes → Bytes → World → World → Type 0
Orphan made content w w' =
    (path : Bytes) × (w'.tables ≡ w.tables)
    × (w'.email.identity ≡ path)
    × (w'.email.save_path ≡ path)
    × (w'.files ≡ insert path content w.files)
    × (w'.dirs ≡ w.dirs ++ made)

-- What a call leaves, by its ending.
abbrev pub LeftBy : List Bytes → Bytes → World → World → Refusal → Type 0
LeftBy made content w w' copy_failed = Begun made content w w'
LeftBy made content w w' (row_refused f) = Orphan made content w w'
LeftBy made content w w' name_empty = w' ≡ w
LeftBy made content w w' account_not_found = w' ≡ w
LeftBy made content w w' account_disabled = w' ≡ w
LeftBy made content w w' domain_not_found = w' ≡ w
LeftBy made content w w' domain_disabled = w' ≡ w
LeftBy made content w w' job_id_invalid = w' ≡ w
LeftBy made content w w' no_directory = w' ≡ record w { dirs = w.dirs ++ made }
LeftBy made content w w' no_file = w' ≡ record w { dirs = w.dirs ++ made }

abbrev pub Leaves : List Bytes → Bytes → World → World × Ending → Type 0
Leaves made content w (w', saved p) = w'.email.identity ≡ p
Leaves made content w (w', refused r) = LeftBy made content w w' r
Leaves made content w (w', panicked) = w' ≡ w

guarded :
    (made : List Bytes) (content : Bytes) (b : Bool) (r : Refusal) (w v : World)
    (x : World × Ending)
    → LeftBy made content w v r
    → Leaves made content w x
    → Leaves made content w (if b then (v, refused r) else x)
guarded made content true r w v x h k = h
guarded made content false r w v x h k = k

table_kept :
    (t : Tables) (m : Email) (key : ℕ) (o : Option (List Email)) (f : Failure)
    → (with_inserted t m key o).1 ≡ failed f
    → (with_inserted t m key o).0 ≡ (t, m)
unfolding with_inserted
table_kept t m key none f e = refl
table_kept t m key (some es) f e = absurd (cc e)

key_kept :
    (t : Tables) (m : Email) (key : ℕ) (o : Option (List Email))
    → ((with_inserted t m key o).0.1.identity ≡ m.identity)
unfolding with_inserted
key_kept t m key none = refl
key_kept t m key (some es) = refl

guard_identity :
    (b : Bool) (g : Failure) (t : Tables) (m : Email) (x : (Tables × Email) × Result (Unit {0}))
    → x.0.1.identity ≡ m.identity
    → (if b then ((t, m), failed g) else x).0.1.identity ≡ m.identity
guard_identity true g t m x h = refl
guard_identity false g t m x h = h

guard_kept :
    (b : Bool) (g f : Failure) (t : Tables × Email) (x : (Tables × Email) × Result (Unit {0}))
    → (x.1 ≡ failed f → x.0 ≡ t)
    → (if b then (t, failed g) else x).1 ≡ failed f
    → (if b then (t, failed g) else x).0 ≡ t
guard_kept true g f t x h e = refl
guard_kept false g f t x h e = h e

module _ (db : Database) (parse_id : Bytes → Option ℕ) where
  save_email_kept :
      (e : Email) (t : Tables) (f : Failure)
      → (save_email db e t).1 ≡ failed f
      → (save_email db e t).0 ≡ (t, e)
  unfolding save_email
  save_email_kept e t f =
      guard_kept (not db.connected) _ f (t, e) _
        (guard_kept (e.account_id == 0 || (is_empty e.job_id || is_empty e.identity)) _ f (t, e) _
          (table_kept t e (db.email_key e t.emails) (db.emails.create e t.emails) f))

  save_email-identity : (e : Email) (t : Tables) → (save_email db e t).0.1.identity ≡ e.identity
  unfolding save_email
  save_email-identity e t = guard_identity (not db.connected) _ t e _ (
      guard_identity (e.account_id == 0 || (is_empty e.job_id || is_empty e.identity)) _ t e _
        (key_kept t e (db.email_key e t.emails) (db.emails.create e t.emails)))

  inserted-Leaves :
      (made : List Bytes) (path content : Bytes) (w v : World) (m : Email)
      (x : (Tables × Email) × Result (Unit {0}))
      → ((f : Failure) → x.1 ≡ failed f → x.0 ≡ (w.tables, m))
      → x.0.1.identity ≡ path
      → v.files ≡ insert path content w.files
      → v.dirs ≡ w.dirs ++ made
      → m.save_path ≡ path
      → Leaves made content w (insert_row db parse_id path v x)
  unfolding insert_row
  inserted-Leaves made path content w v m ((t, e), ok _) kept identity files dirs place = identity
  inserted-Leaves made path content w v m ((t, e), failed f) kept identity files dirs place = (
    path,
    ap (λ r. r.0) (kept f refl),
    identity,
    ap (λ r. r.1.save_path) (kept f refl) ∙ place,
    files,
    dirs,
  )

  copy_mail-Leaves :
      (now : ℕ) (a : Account) (path content : Bytes) (b : Option ℕ) (disk : Disk) (w : World)
      → Leaves disk.made content w
          (copy_mail db parse_id now a path content b (with_dirs db parse_id disk w))
  unfolding copy_mail recorded with_dirs
  copy_mail-Leaves now a path content (some n) disk w = (path, n, refl, refl, refl, refl)
  copy_mail-Leaves now a path content none disk w =
      inserted-Leaves disk.made path content w
        (record w { files = insert path content w.files; dirs = w.dirs ++ disk.made })
        (recorded now a path w.email) (save_email db (recorded now a path w.email) w.tables)
        (save_email_kept (recorded now a path w.email) w.tables)
        (save_email-identity (recorded now a path w.email) w.tables) refl refl refl

  job-Leaves :
      (s : LocalStorage) (now : ℕ) (a : Account) (d : Domain) (content : Bytes) (disk : Disk)
      (w : World) (o : Option ℕ)
      → Leaves disk.made content w (save_job db parse_id s now a d content disk w o)
  unfolding save_job save_at with_dirs
  job-Leaves s now a d content disk w none = refl
  job-Leaves s now a d content disk w (some h) =
      guarded disk.made content (not disk.makes) no_directory w _ _ refl (
        guarded disk.made content (not disk.creates) no_file w _ _ refl (
          copy_mail-Leaves now a (join_path (directory s.base_dir d a h ∷ w.email.job_id ∷ []))
            content disk.breaks disk w))

  domain-Leaves :
      (s : LocalStorage) (now : ℕ) (a : Account) (content : Bytes) (disk : Disk) (w : World)
      (r : Result (Option Domain))
      → Leaves disk.made content w (save_domain db parse_id s now a content disk w r)
  unfolding save_domain
  domain-Leaves s now a content disk w (failed f) = refl
  domain-Leaves s now a content disk w (ok none) = refl
  domain-Leaves s now a content disk w (ok (some d)) =
      guarded disk.made content (not (validate_domain d)) domain_disabled w _ _ refl
        (job-Leaves s now a d content disk w (parse_id w.email.job_id))

  account-Leaves :
      (s : LocalStorage) (now : ℕ) (content : Bytes) (disk : Disk) (w : World)
      (r : Result (Option Account))
      → Leaves disk.made content w (save_account db parse_id s now content disk w r)
  unfolding save_account
  account-Leaves s now content disk w (failed f) = refl
  account-Leaves s now content disk w (ok none) = refl
  account-Leaves s now content disk w (ok (some a)) =
      guarded disk.made content (not (validate_account a)) account_disabled w _ _ refl
        (domain-Leaves s now a content disk w (find_domain_by_id db a.domain_id w.tables))

  -- A `Save` that succeeds leaves its path in the caller's mail. A `Save` that panics or returns an error
  -- leaves the tables as they were, with one of two traces if the error came late: a copy that breaks
  -- off leaves the file with what was copied, and when the row cannot be inserted, the whole file
  -- stays, and the caller's mail names its path. The directories that were made stay behind these
  -- errors, and are all that is left when they could not all be made or the file not be created. Behind
  -- any other error, or a panic, nothing has changed.
  pub save-Leaves :
      (s : LocalStorage) (now : ℕ) (name content : Bytes) (disk : Disk) (w : World)
      → Leaves disk.made content w (save db parse_id s now name content disk w)
  unfolding save
  save-Leaves s now name content disk w =
      guarded disk.made content (is_empty name) name_empty w _ _ refl
        (account-Leaves s now content disk w (find_account_by_name db name w.tables))
