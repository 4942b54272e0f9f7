-- ===== src/Auth/Tests.antt =====
-- The authentication service at concrete credentials.
use easymail.Base.{◌≡◌, refl, true, false, codes}
use easymail.Text.{trim_space}
use easymail.Auth.{Account, Repository, found, accepted, invalid_credential, authenticate}

abbrev alice : Account
alice = record { id = 7; username = codes "alice"; domain_id = 1; active = true; deleted = false }

abbrev open_repository : Repository
open_repository username password = found alice

trimmed : authenticate open_repository (codes "  alice@b.cn ") (codes "secret") ≡ accepted alice
unfolding authenticate trim_space
trimmed = refl

short_password : authenticate open_repository (codes "alice") (codes "12345") ≡ invalid_credential
unfolding authenticate trim_space
short_password = refl
