-- ===== src/Milter/Options.antt =====
-- internal/app/service/milter/milter.go: the option bits of the negotiation.
use easymail.Base.{ℕ, ◌^◌, ◌≡◌, refl, Option, none, some, Bytes, ◌==◌, if◌then◌else◌}

-- `OptAction`.
pub data OptAction : Type 0 where
  add_header change_body add_rcpt remove_rcpt change_header quarantine : OptAction
  change_from add_rcpt_with_args set_sym_list : OptAction

unfoldable pub opt_action : OptAction → ℕ
opt_action OptAction.add_header = 2 ^ 0
opt_action OptAction.change_body = 2 ^ 1
opt_action OptAction.add_rcpt = 2 ^ 2
opt_action OptAction.remove_rcpt = 2 ^ 3
opt_action OptAction.change_header = 2 ^ 4
opt_action OptAction.quarantine = 2 ^ 5
opt_action OptAction.change_from = 2 ^ 6
opt_action OptAction.add_rcpt_with_args = 2 ^ 7
opt_action OptAction.set_sym_list = 2 ^ 8

-- The inverse table.
opt_action_of : ℕ → Option OptAction
opt_action_of c =
    if c == 2 ^ 0
    then some OptAction.add_header
    else if c == 2 ^ 1
    then some OptAction.change_body
    else if c == 2 ^ 2
    then some OptAction.add_rcpt
    else if c == 2 ^ 3
    then some OptAction.remove_rcpt
    else if c == 2 ^ 4
    then some OptAction.change_header
    else if c == 2 ^ 5
    then some OptAction.quarantine
    else if c == 2 ^ 6
    then some OptAction.change_from
    else if c == 2 ^ 7
    then some OptAction.add_rcpt_with_args
    else if c == 2 ^ 8
    then some OptAction.set_sym_list
    else none

opt_action_of-opt_action : (c : OptAction) → opt_action_of (opt_action c) ≡ some c
unfolding opt_action_of opt_action
opt_action_of-opt_action OptAction.add_header = refl
opt_action_of-opt_action _ = refl

pub opt_action_inj : (c d : OptAction) → opt_action c ≡ opt_action d → c ≡ d
opt_action_inj c d h = cc (opt_action_of-opt_action c, opt_action_of-opt_action d, h)

-- `FeatureType`.
pub data FeatureType : Type 0 where
  data_type_string data_type_int data_type_float data_type_bool : FeatureType

-- `Feature`, which a handler of the filter reports.
pub record Feature : Type 0 where
  pub name : Bytes
  pub value : Bytes
  pub value_type : FeatureType

-- `OptProtocol`.
pub data OptProtocol : Type 0 where
  no_connect no_helo no_mail_from no_rcpt_to no_body no_headers no_eoh : OptProtocol
  no_unknown no_data skip rcpt_rej no_header_reply no_conn_reply : OptProtocol
  no_helo_reply no_mail_reply no_rcpt_reply no_data_reply : OptProtocol
  no_unknown_reply no_eoh_reply no_body_reply header_leading_space : OptProtocol

unfoldable pub opt_protocol : OptProtocol → ℕ
opt_protocol OptProtocol.no_connect = 2 ^ 0
opt_protocol OptProtocol.no_helo = 2 ^ 1
opt_protocol OptProtocol.no_mail_from = 2 ^ 2
opt_protocol OptProtocol.no_rcpt_to = 2 ^ 3
opt_protocol OptProtocol.no_body = 2 ^ 4
opt_protocol OptProtocol.no_headers = 2 ^ 5
opt_protocol OptProtocol.no_eoh = 2 ^ 6
opt_protocol OptProtocol.no_unknown = 2 ^ 8
opt_protocol OptProtocol.no_data = 2 ^ 9
opt_protocol OptProtocol.skip = 2 ^ 10
opt_protocol OptProtocol.rcpt_rej = 2 ^ 11
opt_protocol OptProtocol.no_header_reply = 2 ^ 7
opt_protocol OptProtocol.no_conn_reply = 2 ^ 12
opt_protocol OptProtocol.no_helo_reply = 2 ^ 13
opt_protocol OptProtocol.no_mail_reply = 2 ^ 14
opt_protocol OptProtocol.no_rcpt_reply = 2 ^ 15
opt_protocol OptProtocol.no_data_reply = 2 ^ 16
opt_protocol OptProtocol.no_unknown_reply = 2 ^ 17
opt_protocol OptProtocol.no_eoh_reply = 2 ^ 18
opt_protocol OptProtocol.no_body_reply = 2 ^ 19
opt_protocol OptProtocol.header_leading_space = 2 ^ 20

-- The inverse table.
opt_protocol_of : ℕ → Option OptProtocol
opt_protocol_of c =
    if c == 2 ^ 0
    then some OptProtocol.no_connect
    else if c == 2 ^ 1
    then some OptProtocol.no_helo
    else if c == 2 ^ 2
    then some OptProtocol.no_mail_from
    else if c == 2 ^ 3
    then some OptProtocol.no_rcpt_to
    else if c == 2 ^ 4
    then some OptProtocol.no_body
    else if c == 2 ^ 5
    then some OptProtocol.no_headers
    else if c == 2 ^ 6
    then some OptProtocol.no_eoh
    else if c == 2 ^ 8
    then some OptProtocol.no_unknown
    else if c == 2 ^ 9
    then some OptProtocol.no_data
    else if c == 2 ^ 10
    then some OptProtocol.skip
    else if c == 2 ^ 11
    then some OptProtocol.rcpt_rej
    else if c == 2 ^ 7
    then some OptProtocol.no_header_reply
    else if c == 2 ^ 12
    then some OptProtocol.no_conn_reply
    else if c == 2 ^ 13
    then some OptProtocol.no_helo_reply
    else if c == 2 ^ 14
    then some OptProtocol.no_mail_reply
    else if c == 2 ^ 15
    then some OptProtocol.no_rcpt_reply
    else if c == 2 ^ 16
    then some OptProtocol.no_data_reply
    else if c == 2 ^ 17
    then some OptProtocol.no_unknown_reply
    else if c == 2 ^ 18
    then some OptProtocol.no_eoh_reply
    else if c == 2 ^ 19
    then some OptProtocol.no_body_reply
    else if c == 2 ^ 20
    then some OptProtocol.header_leading_space
    else none

opt_protocol_of-opt_protocol : (c : OptProtocol) → opt_protocol_of (opt_protocol c) ≡ some c
unfolding opt_protocol_of opt_protocol
opt_protocol_of-opt_protocol OptProtocol.no_connect = refl
opt_protocol_of-opt_protocol _ = refl

pub opt_protocol_inj : (c d : OptProtocol) → opt_protocol c ≡ opt_protocol d → c ≡ d
opt_protocol_inj c d h = cc (opt_protocol_of-opt_protocol c, opt_protocol_of-opt_protocol d, h)
