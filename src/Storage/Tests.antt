-- ===== src/Storage/Tests.antt =====
-- The storage at concrete inputs.
use easymail.Base.{
  ◌++◌, ◌%◌, ℕ, ◌≡◌, refl, true, false, Option, none, some, [], ◌∷◌, Bytes, codes, same, is_empty,
  if◌then◌else◌,
}
use easymail.Text.Path.{clean, join_path}
use easymail.Model.Memory.{memory, found_row}
use easymail.Model.Tables.{Domain, Account, Email, Database, validate_account, validate_domain}
use easymail.Model.Domain.{find_domain_by_id}
use easymail.Model.Account.{zero_account, find_account_by_name}
use easymail.Model.Mail.{zero_email, save_email}
use easymail.Storage.{
  LocalStorage, Disk, World, saved, recorded, directory, new_local_storage, save,
}
use easymail.Storage.Leaves.{Leaves, save-Leaves}
use easymail.Text.{decimal}
use easymail.Text.Path.Laws.{rooted_path, is_plain-IsPlain}
use easymail.Storage.Place.{directory-below}
use easymail.Storage.Reading.{Address, Part, Envelope, buffer_of, read, panicked, get_attach}

cleaned :
    (clean (codes "/a/./b//../c/") ≡ codes "/a/c")
    × (clean [] ≡ codes ".")
    × (clean (codes "../../a/..") ≡ codes "../..")
    × (clean (codes "/..") ≡ codes "/")
unfolding clean
cleaned = (refl, refl, refl, refl)

joined : (join_path ([] ∷ codes "a" ∷ codes "../b/" ∷ []) ≡ codes "b") × (join_path ([] ∷ []) ≡ [])
unfolding join_path
joined = (refl, refl)

abbrev shop : Domain
shop = record {
  id = 3;
  name = codes "b.cn";
  description = [];
  active = true;
  deleted = false;
  create_time = 1;
  update_time = 1;
  delete_time = 0;
}

abbrev bob : Account
bob = record zero_account { id = 5; username = codes "bob"; domain_id = 3; active = true }

-- Rows are replaced whole, as no test updates by a struct.
abbrev db : Database
db = record {
  connected = true;
  domains = memory (λ patch row. patch);
  accounts = memory (λ patch row. patch);
  emails = record (memory (λ patch row. patch)) {
    create = λ e es. some (es ++ record e { id = 1 } ∷ []);
  };
  same_text = same;
  begins = true;
  email_key = λ e es. 1;
  commit = λ t. true;
}

-- A job is its length here.
abbrev parse_id : Bytes → Option ℕ
parse_id s = if is_empty s then none else some 70

abbrev letter : Email
letter = record zero_email { job_id = codes "j1" }

abbrev world : World
world = record {
  dirs = [];
  files = [];
  tables = record { domains = shop ∷ []; accounts = bob ∷ []; emails = [] };
  email = letter;
}

abbrev local : LocalStorage
local = new_local_storage (codes "/app") (codes "/mail") true

abbrev sound : Disk
sound = record { makes = true; made = codes "/mail/b.cn" ∷ []; creates = true; breaks = none }

abbrev place : Bytes
place = codes "/mail/b.cn/bob/6/6/j1"

abbrev behind : World
behind = record {
  dirs = codes "/mail/b.cn" ∷ [];
  files = (place, codes "hi") ∷ [];
  tables = record {
    domains = shop ∷ [];
    accounts = bob ∷ [];
    emails = record (recorded 9 bob place letter) { id = 1 } ∷ [];
  };
  email = record (recorded 9 bob place letter) { id = 1 };
}

stored_there :
    save db parse_id local 9 (codes "bob@b.cn") (codes "hi") sound world ≡ (behind, saved place)
unfolding save find_account_by_name found_row validate_account find_domain_by_id validate_domain
    save_email
stored_there = refl

-- A table that takes no row: the file stays.
abbrev full : Database
full = record db { emails = record db.emails { create = λ r t. none } }

stays :
    (save full parse_id local 9 (codes "bob@b.cn") (codes "hi") sound world).0.files
    ≡ (place, codes "hi") ∷ []
unfolding save find_account_by_name found_row validate_account find_domain_by_id validate_domain
    save_email
stays = refl

save-Leaves_example :
    Leaves
      (codes "/mail/b.cn" ∷ [])
      (codes "hi")
      world
      (save full parse_id local 9 (codes "bob@b.cn") (codes "hi") sound world)
save-Leaves_example = save-Leaves full parse_id local 9 (codes "bob@b.cn") (codes "hi") sound world

abbrev plan : Part
plan = record { file_name = codes "plan"; content_type = codes "text"; content = codes "one" }

abbrev parcel : Envelope
parcel = record {
  text = codes "t";
  html = [];
  from = codes "?";
  to = codes "bob" ∷ [];
  cc = [];
  attachments = plan ∷ record plan { content = codes "two" } ∷ [];
}

-- A parser that refuses what starts with a question mark.
abbrev parse_address : Bytes → Option Address
parse_address s = if same s (codes "?") then none else some (record { name = []; address = s })

no_sender : read parse_address (some parcel) ≡ panicked
unfolding read
no_sender = refl

first_plan : get_attach (some parcel) (codes "plan") false ≡ some (buffer_of plan ∷ [])
unfolding get_attach
first_plan = refl

directory-below_example :
    join_path (directory (rooted_path (codes "mail" ∷ [])) shop bob 70 ∷ codes "j1" ∷ [])
    ≡ rooted_path (
        codes "mail"
        ∷ codes "b.cn"
        ∷ codes "bob"
        ∷ decimal (70 % 32)
        ∷ decimal (70 % 64)
        ∷ codes "j1"
        ∷ [])
directory-below_example =
    directory-below (codes "mail") [] shop bob 70 (codes "j1")
      (is_plain-IsPlain (codes "mail") refl, tt) (is_plain-IsPlain (codes "b.cn") refl)
      (is_plain-IsPlain (codes "bob") refl) (is_plain-IsPlain (codes "j1") refl)
