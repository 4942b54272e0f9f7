-- ===== src/Milter/Codes.antt =====
-- internal/app/service/milter/message.go: the codes of the milter protocol.
use easymail.Base.{ℕ, ◌≡◌, refl, Option, none, some, Bytes, ◌==◌, if◌then◌else◌}

-- `Message`.
pub record Message : Type 0 where
  pub code : ℕ
  pub payload : Bytes

-- `MaxBodyChunk`.
abbrev pub max_body_chunk : ℕ
max_body_chunk = 65535

-- `ActionCode`.
pub data ActionCode : Type 0 where
  accept continue discard reject temp_fail reply_code skip : ActionCode

unfoldable pub action_byte : ActionCode → ℕ
action_byte ActionCode.accept = b'a'
action_byte ActionCode.continue = b'c'
action_byte ActionCode.discard = b'd'
action_byte ActionCode.reject = b'r'
action_byte ActionCode.temp_fail = b't'
action_byte ActionCode.reply_code = b'y'
action_byte ActionCode.skip = b's'

-- The inverse table.
action_of : ℕ → Option ActionCode
action_of c =
    if c == b'a'
    then some ActionCode.accept
    else if c == b'c'
    then some ActionCode.continue
    else if c == b'd'
    then some ActionCode.discard
    else if c == b'r'
    then some ActionCode.reject
    else if c == b't'
    then some ActionCode.temp_fail
    else if c == b'y'
    then some ActionCode.reply_code
    else if c == b's'
    then some ActionCode.skip
    else none

action_of-action_byte : (c : ActionCode) → action_of (action_byte c) ≡ some c
unfolding action_of action_byte
action_of-action_byte ActionCode.accept = refl
action_of-action_byte _ = refl

pub action_byte_inj : (c d : ActionCode) → action_byte c ≡ action_byte d → c ≡ d
action_byte_inj c d h = cc (action_of-action_byte c, action_of-action_byte d, h)

-- `ModifyActCode`.
pub data ModifyActCode : Type 0 where
  add_rcpt del_rcpt repl_body add_header change_header insert_header : ModifyActCode
  quarantine change_from : ModifyActCode

unfoldable pub modify_byte : ModifyActCode → ℕ
modify_byte ModifyActCode.add_rcpt = b'+'
modify_byte ModifyActCode.del_rcpt = b'-'
modify_byte ModifyActCode.repl_body = b'b'
modify_byte ModifyActCode.add_header = b'h'
modify_byte ModifyActCode.change_header = b'm'
modify_byte ModifyActCode.insert_header = b'i'
modify_byte ModifyActCode.quarantine = b'q'
modify_byte ModifyActCode.change_from = b'e'

-- The inverse table.
modify_of : ℕ → Option ModifyActCode
modify_of c =
    if c == b'+'
    then some ModifyActCode.add_rcpt
    else if c == b'-'
    then some ModifyActCode.del_rcpt
    else if c == b'b'
    then some ModifyActCode.repl_body
    else if c == b'h'
    then some ModifyActCode.add_header
    else if c == b'm'
    then some ModifyActCode.change_header
    else if c == b'i'
    then some ModifyActCode.insert_header
    else if c == b'q'
    then some ModifyActCode.quarantine
    else if c == b'e'
    then some ModifyActCode.change_from
    else none

modify_of-modify_byte : (c : ModifyActCode) → modify_of (modify_byte c) ≡ some c
unfolding modify_of modify_byte
modify_of-modify_byte ModifyActCode.add_rcpt = refl
modify_of-modify_byte _ = refl

pub modify_byte_inj : (c d : ModifyActCode) → modify_byte c ≡ modify_byte d → c ≡ d
modify_byte_inj c d h = cc (modify_of-modify_byte c, modify_of-modify_byte d, h)

-- `Code`, with `transfer` for the source's `CodeData`.
pub data Code : Type 0 where
  opt_neg macro conn quit helo mail rcpt header eoh body eob abort : Code
  transfer quit_new_conn : Code

unfoldable pub code_byte : Code → ℕ
code_byte Code.opt_neg = b'O'
code_byte Code.macro = b'D'
code_byte Code.conn = b'C'
code_byte Code.quit = b'Q'
code_byte Code.helo = b'H'
code_byte Code.mail = b'M'
code_byte Code.rcpt = b'R'
code_byte Code.header = b'L'
code_byte Code.eoh = b'N'
code_byte Code.body = b'B'
code_byte Code.eob = b'E'
code_byte Code.abort = b'A'
code_byte Code.transfer = b'T'
code_byte Code.quit_new_conn = b'K'

-- The inverse table.
code_of : ℕ → Option Code
code_of c =
    if c == b'O'
    then some Code.opt_neg
    else if c == b'D'
    then some Code.macro
    else if c == b'C'
    then some Code.conn
    else if c == b'Q'
    then some Code.quit
    else if c == b'H'
    then some Code.helo
    else if c == b'M'
    then some Code.mail
    else if c == b'R'
    then some Code.rcpt
    else if c == b'L'
    then some Code.header
    else if c == b'N'
    then some Code.eoh
    else if c == b'B'
    then some Code.body
    else if c == b'E'
    then some Code.eob
    else if c == b'A'
    then some Code.abort
    else if c == b'T'
    then some Code.transfer
    else if c == b'K'
    then some Code.quit_new_conn
    else none

code_of-code_byte : (c : Code) → code_of (code_byte c) ≡ some c
unfolding code_of code_byte
code_of-code_byte Code.opt_neg = refl
code_of-code_byte _ = refl

pub code_byte_inj : (c d : Code) → code_byte c ≡ code_byte d → c ≡ d
code_byte_inj c d h = cc (code_of-code_byte c, code_of-code_byte d, h)

-- `ProtoFamily`.
pub data ProtoFamily : Type 0 where
  unknown unix inet inet6 : ProtoFamily

unfoldable pub family_byte : ProtoFamily → ℕ
family_byte ProtoFamily.unknown = b'U'
family_byte ProtoFamily.unix = b'L'
family_byte ProtoFamily.inet = b'4'
family_byte ProtoFamily.inet6 = b'6'

-- The inverse table.
family_of : ℕ → Option ProtoFamily
family_of c =
    if c == b'U'
    then some ProtoFamily.unknown
    else if c == b'L'
    then some ProtoFamily.unix
    else if c == b'4'
    then some ProtoFamily.inet
    else if c == b'6'
    then some ProtoFamily.inet6
    else none

family_of-family_byte : (c : ProtoFamily) → family_of (family_byte c) ≡ some c
unfolding family_of family_byte
family_of-family_byte ProtoFamily.unknown = refl
family_of-family_byte _ = refl

pub family_byte_inj : (c d : ProtoFamily) → family_byte c ≡ family_byte d → c ≡ d
family_byte_inj c d h = cc (family_of-family_byte c, family_of-family_byte d, h)
