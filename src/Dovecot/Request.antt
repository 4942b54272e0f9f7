-- ===== src/Dovecot/Request.antt =====
-- The reading of a request line, of internal/app/service/dovecot/server.go: the checks of the loop
-- of `Handle` from the line to the pair of user name and password.
pub mod Laws
pub mod Sound
use easymail.Base.{
  ℕ, ◌≡◌, refl, Bool, true, false, not, Option, none, some, List, [], ◌∷◌, ◌++◌, arith, Bytes,
  codes, same, Dict, lookup, insert, if◌then◌else◌,
}
use easymail.Text.{split, cut, split_two, split_three}
use easymail.Dovecot.Base64.{decode_string}

-- What the loop makes of a line: an error before the request's identifier is read, an error behind
-- that, nothing at all, or an attempt with its service, user name and password.
pub data Request : Type 0 where
  refused : Bytes → Request
  refused_as : Bytes → Bytes → Request
  ignored : Request
  attempt : Bytes → Bytes → Bytes → Bytes → Request

-- The pair out of the decoded response.
request_pair : Bytes → Bytes → List Bytes → Request
request_pair id service (z ∷ user ∷ password ∷ []) = attempt id service user password
request_pair id service _ = refused_as id (codes "invalid auth resp")

-- The response, if it could be decoded.
request_resp : Bytes → Bytes → Option Bytes → Request
unfolding request_pair split_three
request_resp id service none = refused_as id (codes "failed to decode resp")
request_resp id service (some auth) = request_pair id service (split_three 0 auth)

-- One parameter, `key=value` or a key alone.
set_param : Dict Bytes → List Bytes → Dict Bytes
set_param m (k ∷ []) = insert k [] m
set_param m (k ∷ v ∷ []) = insert k v m
set_param m _ = m

-- The loop over the parameters; a later one replaces an earlier one.
pub params : Dict Bytes → List Bytes → Dict Bytes
unfolding set_param split_two
params m [] = m
params m (v ∷ vs) = params (set_param m (split_two b'=' v)) vs

-- The parameters that must exist.
request_params : Bytes → Dict Bytes → Request
unfolding request_resp decode_string
request_params id m = elim (lookup (codes "service") m) [
  | none ↦ refused_as id (codes "service not found")
  | some service ↦ elim (lookup (codes "resp") m) [
    | none ↦ refused_as id (codes "resp not found")
    | some r ↦ request_resp id service (decode_string r)
  ]
]

-- `argv`: at least four arguments, of which the second is the mechanism.
request_args : Bytes → Bytes → List Bytes → Request
unfolding request_params params
request_args id mech (p ∷ q ∷ ps) =
    if not (same mech (codes "PLAIN"))
    then refused_as id (codes "invalid auth type")
    else request_params id (params [] (p ∷ q ∷ ps))
request_args id mech _ = refused (codes "invalid arguments")

-- The fields of the line: at least three, of which the first is the command.
request_fields : Bytes → List Bytes → Request
unfolding request_args
request_fields line (cmd ∷ a ∷ b ∷ rest) =
    if not (same cmd (codes "AUTH")) then ignored else request_args a b rest
request_fields line _ = refused (codes "invalid command: " ++ line)

-- The checks on one line.
unfoldable pub request : Bytes → Request
unfolding request_fields split
request line = request_fields line (split 9 line)
