-- ===== src/Model/Tests.antt =====
-- The operations on a small database that is held in memory.
use easymail.Base.{
  ◌&&◌, inl, ◌≢◌, ◌≤◌, ◌≡◌, ◌↔◌, refl, Bool, true, false, Option, none, some, List, [], All, Dict,
  ◌∷◌, arith, Bytes, codes, same, ◌==◌, length,
}
use easymail.Base.Int.{pos}
use easymail.Text.{to_lower, trim_space}
use easymail.Dovecot.Handle.{handle}
use easymail.Dovecot.Handle.Login.{asked, Backed, handle-Backed}
use easymail.Auth.{Repository, accepted, crashed, authenticate}
use easymail.Auth.Store.{shown, account_auth_repository, login_sound, login_returns}
use easymail.Model.Memory.{
  found_row, insert_unless, insert_clashing, memory, memory-IsQuery, memory-IsChange,
  memory-IsStructChange,
}
use easymail.Model.Gorm.{IsQuery, IsChange, changed}
use easymail.Model.Tables.{
  Domain, Account, web_read, imap_read, Email, Tables, Database, hashing_failed, ok, failed,
  database_error,
}
use easymail.Model.Address.{match_email}
use easymail.Model.Address.Laws.{IsAddress, match_email_iff}
use easymail.Model.Domain.{find_domain_by_id, physical_delete_domain, delete_domain}
use easymail.Model.Domain.Laws.{
  overlay_domain, Purges, delete_domain_keeps_active, physical_delete_atomic,
}
use easymail.Model.Account.{
  CreateAccountRequest, EditAccountRequest, authorize, create_account, delete_account,
}
use easymail.Model.Account.Laws.{Listed}
use easymail.Model.Account.Removal.{Marks, delete_account_atomic}
use easymail.Model.Account.Creation.{IsUnique, create_account_bare_name}
use easymail.Model.Account.Editing.{edit_account, left_open, sets_password}
use easymail.Model.Account.Editing.Laws.{
  Edits, edited, is_open, edit_account_atomic, edit_account_leaks,
}
use easymail.Model.Mail.{zero_email, mark_read}

abbrev example_domain : Domain
example_domain = record {
  id = 3;
  name = codes "b.cn";
  description = [];
  active = true;
  deleted = false;
  create_time = 1;
  update_time = 1;
  delete_time = 0;
}

abbrev bob : Account
bob = record {
  id = 5;
  username = codes "Bob";
  password = codes "#secret";
  domain_id = 3;
  active = true;
  deleted = false;
  update_time = 1;
  delete_time = 0;
  create_time = 1;
  password_expire_time = none;
  storage_quota = pos 10;
}

abbrev letter_to_bob : Email
letter_to_bob = record zero_email { id = 9; account_id = 5 }

abbrev tables : Tables
tables = record { domains = example_domain ∷ []; accounts = bob ∷ []; emails = letter_to_bob ∷ [] }

abbrev database : Database
database = record {
  connected = true;
  domains = memory overlay_domain;
  accounts = memory (λ patch a. a);
  emails = memory (λ patch e. e);
  same_text = λ a b. same (to_lower a) (to_lower b);
  begins = true;
  email_key = λ e es. e.id;
  commit = λ t. true;
}

abbrev accounts-IsQuery : IsQuery database.accounts
accounts-IsQuery = memory-IsQuery (λ patch a. a)

abbrev domains-IsQuery : IsQuery database.domains
domains-IsQuery = memory-IsQuery overlay_domain

abbrev accounts-IsChange : IsChange database.accounts
accounts-IsChange = memory-IsChange (λ patch a. a)

abbrev emails-IsChange : IsChange database.emails
emails-IsChange = memory-IsChange (λ patch e. e)

-- A hash that keeps the password behind a sign, and its comparison.
abbrev hash_of : Bytes → Option Bytes
hash_of p = some (b'#' ∷ p)

abbrev no_hash : Bytes → Option Bytes
no_hash p = none

abbrev matches : Bytes → Bytes → Bool
matches hash p = same hash (b'#' ∷ p)

bob_enters : authorize database matches (codes "Bob@B.cn") (codes "secret") tables ≡ some (ok bob)
unfolding authorize found_row
bob_enters = refl

delete_account_atomic_example : Marks 77 78 5 tables (delete_account database 77 78 5 tables)
delete_account_atomic_example =
    delete_account_atomic database emails-IsChange accounts-IsChange 77 78 5 tables

abbrev edit_bob : EditAccountRequest
edit_bob = record {
  id = 5;
  password = codes "longer";
  storage_quota_number = pos 20;
  password_expired_time = 0;
}

edit_account_atomic_example :
    Edits (edited hash_of edit_bob) 5 tables (edit_account database hash_of edit_bob tables)
edit_account_atomic_example = edit_account_atomic database accounts-IsChange hash_of edit_bob tables

edit_account_leaks_example :
    (is_open ((edit_account database no_hash edit_bob tables).1) ≡ true) ↔ (
      (database.connected ≡ true)
      × (database.begins ≡ true)
      × (sets_password edit_bob ≡ true)
      × (no_hash edit_bob.password ≡ none))
edit_account_leaks_example = edit_account_leaks database no_hash edit_bob tables

left_open_indeed :
    edit_account database no_hash edit_bob tables ≡ (tables, left_open hashing_failed)
unfolding edit_account
left_open_indeed = refl

abbrev create_bob : CreateAccountRequest
create_bob = record {
  name = codes "bob";
  domain_id = 3;
  password = codes "secret";
  storage_quota = pos 1;
  password_expired_time = 0;
}

domain_three : find_domain_by_id database 3 tables ≡ ok (some example_domain)
unfolding find_domain_by_id found_row
domain_three = refl

-- The unique index on the name and the domain.
abbrev clash : Account → Account → Bool
clash r a = database.same_text a.username r.username && a.domain_id == r.domain_id

abbrev indexed_database : Database
indexed_database = record database {
  accounts = record (database.accounts) { create = insert_unless clash };
}

indexed_database-IsUnique : IsUnique indexed_database
indexed_database-IsUnique r a rows there same_name same_domain =
    insert_clashing clash r a rows there (ground (arith, same_name, same_domain))

three_indexed : find_domain_by_id indexed_database 3 tables ≡ ok (some example_domain)
unfolding find_domain_by_id found_row
three_indexed = refl

create_account_bare_name_example :
    create_account indexed_database hash_of 77 create_bob tables ≡ (tables, failed database_error)
unfolding to_lower
create_account_bare_name_example =
    create_account_bare_name indexed_database indexed_database-IsUnique hash_of 77 create_bob
      example_domain bob tables (ground arith) three_indexed (ground arith) (inl refl) refl refl

physical_delete_atomic_example : Purges 3 tables (physical_delete_domain database 3 tables)
physical_delete_atomic_example =
    physical_delete_atomic database accounts-IsChange (memory-IsChange overlay_domain) 3 tables

abbrev after_delete : Tables
after_delete = record tables {
  domains = record example_domain { deleted = true; update_time = 77 } ∷ [];
}

deleted_three : delete_domain database 77 3 tables ≡ (after_delete, ok tt)
unfolding delete_domain
deleted_three = refl

delete_domain_keeps_active_example :
    (after_delete.domains
      ≡ changed
          (λ d. d.id == 3)
          (λ d. record d { deleted = true; update_time = 77 })
          tables.domains)
    × (after_delete.accounts ≡ tables.accounts)
    × (after_delete.emails ≡ tables.emails)
delete_domain_keeps_active_example =
    delete_domain_keeps_active database (memory-IsStructChange overlay_domain) 77 3 tables
      after_delete (ground arith) deleted_three

abbrev read_tables : Tables
read_tables = record tables { emails = record letter_to_bob { read_status = imap_read } ∷ [] }

read_by_imap : mark_read database 5 9 imap_read tables ≡ (read_tables, ok tt)
unfolding mark_read
read_by_imap = refl

then_by_web : mark_read database 5 9 web_read read_tables ≡ (read_tables, ok tt)
unfolding mark_read
then_by_web = refl

abbrev over_memory : Repository
over_memory = account_auth_repository database matches tables

bob_logs_in : authenticate over_memory (codes " Bob@b.cn") (codes "secret") ≡ accepted (shown bob)
unfolding authenticate account_auth_repository authorize found_row trim_space
bob_logs_in = refl

login_sound_example :
    (6 ≤ length (codes "secret"))
    × ((acc : Account) × Listed database tables (to_lower (trim_space (codes " Bob@b.cn"))) acc
        × (matches acc.password (codes "secret") ≡ true)
        × (shown acc ≡ shown bob))
login_sound_example =
    login_sound database accounts-IsQuery domains-IsQuery matches tables (codes " Bob@b.cn")
      (codes "secret") (shown bob) refl bob_logs_in

login_returns_example : authenticate over_memory (codes "eve@b.cn") (codes "secret") ≢ crashed
login_returns_example =
    login_returns database accounts-IsQuery domains-IsQuery matches tables (codes "eve@b.cn")
      (codes "secret")

match_email_iff_example : (match_email (codes "bob@b.cn") ≡ true) ↔ IsAddress (codes "bob@b.cn")
match_email_iff_example = match_email_iff (codes "bob@b.cn")

abbrev in_order : Dict Bytes → Dict Bytes
in_order m = m

abbrev bob_calls : List Bytes
bob_calls =
    codes "VERSION\t1\t1"
    ∷ codes "CPID\t42"
    ∷ codes "AUTH\t7\tPLAIN\tservice=smtp\tresp=AGJvYkBiLmNuAHNlY3JldA=="
    ∷ []

-- Over the tables, bob is told OK.
bob_told :
    (handle
      (asked database matches tables)
      (λ _. false)
      in_order
      false
      (codes "9")
      (codes "1")
      (codes "c")
      bob_calls
      (λ n. false)
      false).0.out
    ≡ codes "VERSION\t1\t1"
      ∷ codes "MECH\tPLAIN\tplaintext"
      ∷ codes "SPID\t9"
      ∷ codes "CUID\t1"
      ∷ codes "COOKIE\tc"
      ∷ codes "DONE"
      ∷ codes "OK\t7\tuser=bob@b.cn"
      ∷ []
unfolding handle asked authenticate trim_space account_auth_repository found_row
bob_told = refl

handle-Backed_example :
    All
      (Backed database matches tables bob_calls)
      (handle
        (asked database matches tables)
        (λ _. false)
        in_order
        false
        (codes "9")
        (codes "1")
        (codes "c")
        bob_calls
        (λ n. false)
        false).0.out
handle-Backed_example =
    handle-Backed database accounts-IsQuery domains-IsQuery matches tables (λ p. refl) in_order
      false (λ e. refl) (codes "9") (codes "1") (codes "c") bob_calls (λ n. false) false
