-- ===== src/Auth/Laws.antt =====
-- When a credential is accepted, and what the repository is asked.
use easymail.Base.{◌≤◌, ◌≡◌, ◌↔◌, true, false, arith, Bytes, length}
use easymail.Text.{trim_space}
use easymail.Auth.{Account, Found, found, Repository, accepted, judge, authenticate}

judge-accepted :
    (f : Found) (a : Account)
    → (judge f ≡ accepted a) ↔ ((f ≡ found a) × (a.active ≡ true) × (a.deleted ≡ false))
unfolding judge
judge-accepted Found.failed a = ground arith
judge-accepted Found.missing a = ground arith
judge-accepted Found.panicked a = ground arith
judge-accepted (Found.found b) a = ground arith

-- `Authenticate` returns the account `a` exactly when the trimmed user name has at least three
-- bytes, the password at least six, and the repository, asked with the trimmed name and the
-- password, answers with `a`, which is active and not deleted.
pub authenticate-accepted :
    (repo : Repository) (username password : Bytes) (a : Account)
    → (authenticate repo username password ≡ accepted a) ↔ (
        (3 ≤ length (trim_space username))
        × (6 ≤ length password)
        × (repo (trim_space username) password ≡ found a)
        × (a.active ≡ true)
        × (a.deleted ≡ false))
unfolding authenticate
authenticate-accepted repo username password a =
    ground (arith, judge-accepted (repo (trim_space username) password) a)
