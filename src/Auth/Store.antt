-- ===== src/Auth/Store.antt =====
-- internal/infrastructure/persistence/mysql/account_auth.go: the repository of the service over the
-- database, and what a login means from the service down to the tables.
use easymail.Base.{
  ◌≤◌, ◌≡◌, ◌≢◌, refl, Bool, true, false, Option, none, some, [], arith, Bytes, length, Bool-cases,
  ltb, guard_passed, not, ◌||◌, inl, inr,
}
use easymail.Text.{trim_space, to_lower}
use easymail.Model.Gorm.{IsQuery}
use easymail.Model.Tables.{Tables, Database, Result, ok, failed}
use easymail.Model.Tables
use easymail.Model.Account.{authorize}
use easymail.Model.Account.Laws.{Listed, authorize_sound, authorize_returns}
use easymail.Auth.{
  Account, Found, found, panicked, Repository, accepted, crashed, judge, authenticate,
}
use easymail.Auth.Laws.{authenticate-accepted}

-- The fields of `model.Account` that the service sees.
abbrev pub shown : Tables.Account → Account
shown a = record {
  id = a.id;
  username = a.username;
  domain_id = a.domain_id;
  active = a.active;
  deleted = a.deleted;
}

-- What `Authorize` of the repository makes of the answer of `model.Authorize`.
answered : Option (Result Tables.Account) → Found
answered none = panicked
answered (some (failed e)) = Found.failed
answered (some (ok a)) = found (shown a)

module _ (db : Database) (verify : Bytes → Bytes → Bool) (t : Tables) where
  -- `AccountAuthRepository`.
  unfoldable pub account_auth_repository : Repository
  unfolding answered authorize
  account_auth_repository username password = answered (authorize db verify username password t)

answered-found :
    (r : Option (Result Tables.Account)) (a : Account)
    → answered r ≡ found a
    → (acc : Tables.Account) × (r ≡ some (ok acc)) × (shown acc ≡ a)
unfolding answered
answered-found none a e = absurd (cc e)
answered-found (some (failed f)) a e = absurd (cc e)
answered-found (some (ok acc)) a e = (acc, refl, (cc e))

module _ (db : Database) (accounts : IsQuery db.accounts) (domains : IsQuery db.domains)
    (verify : Bytes → Bytes → Bool) (t : Tables) where
  -- A login that the service accepts, over the database: the trimmed user name, in lower case, has two
  -- parts around an `@` which the database compares as equal to the names of an account in the tables
  -- that is active and not deleted, and of its domain in the tables, the password has at least six bytes and passes bcrypt's comparison with that account's hash, and what
  -- the service returns is that account. A query without an error has found a row that passes its
  -- test, one that fails leaves its destination, and an empty hash passes with no password.
  pub login_sound :
      (username password : Bytes) (a : Account)
      → verify [] password ≡ false
      → authenticate (account_auth_repository db verify t) username password ≡ accepted a
      → (6 ≤ length password)
        × ((acc : Tables.Account) × Listed db t (to_lower (trim_space username)) acc
            × (verify acc.password password ≡ true)
            × (shown acc ≡ a))
  unfolding account_auth_repository
  login_sound username password a empty e =
      let (_, long, asked, _, _) =
        (authenticate-accepted (account_auth_repository db verify t) username password a).0 e in
      let (acc, r, view) = answered-found _ a asked in
      let (l, v) =
        authorize_sound db accounts domains t verify (trim_space username) password acc empty r in
      (long, (acc, l, v, view))

  answered-full : (r : Option (Result Tables.Account)) → r ≢ none → judge (answered r) ≢ crashed
  unfolding judge answered
  answered-full none h e = h refl
  answered-full (some (failed f)) h e = absurd (cc e)
  answered-full (some (ok a)) h e = elim (Bool-cases (not a.active || a.deleted)) [
    | inl b ↦ absurd (ground (arith, b, e))
    | inr b ↦ absurd (ground (arith, b, e))
  ]

  -- A login never ends in a panic: if a query without an error has found a row, and one that fails
  -- leaves its destination, the service answers every credential with an account or its error.
  pub login_returns :
      (username password : Bytes)
      → authenticate (account_auth_repository db verify t) username password ≢ crashed
  unfolding authenticate account_auth_repository
  login_returns username password e =
      answered-full _
        (authorize_returns db accounts domains t verify (trim_space username) password)
        ((guard_passed (ltb (length (trim_space username)) 3 || ltb (length password) 6) (λ k. cc k)
          e).1)
