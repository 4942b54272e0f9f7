-- ===== src/Auth.antt =====
-- internal/app/service/auth/service.go: the service that checks a credential, over a repository that
-- it is given.
pub mod Laws
pub mod Store
pub mod Tests
use easymail.Base.{ℕ, Bool, ◌&&◌, ◌||◌, not, Option, none, some, Bytes, ltb, if◌then◌else◌, length}
use easymail.Text.{trim_space}

-- `auth.Account`.
pub record Account : Type 0 where
  pub id : ℕ
  pub username : Bytes
  pub domain_id : ℕ
  pub active : Bool
  pub deleted : Bool

-- `(*Account, error)` as a repository returns it: an error, a nil pointer without an error, or an
-- account; or its panic.
pub data Found : Type 0 where
  failed : Found
  missing : Found
  panicked : Found
  found : Account → Found

-- `Repository.Authorize(ctx, username, password)`.
abbrev pub Repository : Type 0
Repository = Bytes → Bytes → Found

-- The answer of `Authenticate`: the account, `ErrInvalidCredential`, or the panic of the repository.
pub data Outcome : Type 0 where
  accepted : Account → Outcome
  invalid_credential : Outcome
  crashed : Outcome

-- What `Authenticate` makes of the repository's answer.
judge : Found → Outcome
judge failed = invalid_credential
judge missing = invalid_credential
judge panicked = crashed
judge (found a) = if not a.active || a.deleted then invalid_credential else accepted a

-- `Service.Authenticate`.
unfoldable pub authenticate : Repository → Bytes → Bytes → Outcome
unfolding judge
authenticate repo username password =
    let name = trim_space username in
    if ltb (length name) 3 || ltb (length password) 6
    then invalid_credential
    else judge (repo name password)
