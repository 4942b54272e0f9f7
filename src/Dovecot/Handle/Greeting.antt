-- ===== src/Dovecot/Handle/Greeting.antt =====
-- The handshake: which lines open a conversation, what is written then, and how an old user name
-- shows in a later refusal.
use easymail.Base.{
  ◌≡◌, ◌≢◌, ap, ◌∙◌, true, false, none, List, [], ◌∷◌, ◌++◌, arith, Bytes, codes, same_iff, All,
}
use easymail.Text.{split}
use easymail.Dovecot.Handle.{Session, ready, greet_line, greet}

-- A line that neither ends the handshake nor breaks it off: version 1, or another command with an
-- argument.
abbrev pub IsPrelude : Bytes → Type 0
IsPrelude line =
    (cmd arg : Bytes) × (rest : List Bytes) × (split 9 line ≡ cmd ∷ arg ∷ rest)
    × (cmd ≢ codes "CPID")
    × (cmd ≡ codes "VERSION" → arg ≡ codes "1")

prelude_kept :
    (s : Session) (cmd arg : Bytes) (rest : List Bytes)
    → cmd ≢ codes "CPID"
    → (cmd ≡ codes "VERSION" → arg ≡ codes "1")
    → greet_line s (cmd ∷ arg ∷ rest) ≡ (none, s)
unfolding greet_line
prelude_kept s cmd arg rest h v =
    ground
      (arith, same_iff cmd (codes "CPID"), same_iff cmd (codes "VERSION"), same_iff arg (codes "1"))

greet-prelude :
    (s : Session) (line : Bytes) (lines : List Bytes)
    → s.handshake_ok ≡ false
    → IsPrelude line
    → greet s (line ∷ lines) ≡ greet s lines
unfolding greet
greet-prelude s line lines fresh (cmd, arg, rest, shape, h, v) =
    let kept = ap (greet_line s) shape ∙ prelude_kept s cmd arg rest h v in ground (arith, kept)

greet-cpid :
    (s : Session) (line pid : Bytes) (more lines : List Bytes)
    → split 9 line ≡ codes "CPID" ∷ pid ∷ more
    → greet s (line ∷ lines) ≡ ready (record s { cpid = pid; handshake_ok = true }) lines
unfolding greet greet_line
greet-cpid s line pid more lines shape =
    let found = ap (greet_line s) shape in ground (arith, found)

-- Lines of the prelude and then a CPID line complete the handshake with that line's number, and the
-- lines behind it are left for the conversation.
pub greet_completes :
    (s : Session) (prelude : List Bytes) (line pid : Bytes) (more lines : List Bytes)
    → s.handshake_ok ≡ false
    → All IsPrelude prelude
    → split 9 line ≡ codes "CPID" ∷ pid ∷ more
    → greet s (prelude ++ line ∷ lines) ≡ ready (record s { cpid = pid; handshake_ok = true }) lines
greet_completes s [] line pid more lines fresh h shape = greet-cpid s line pid more lines shape
greet_completes s (p ∷ prelude) line pid more lines fresh h shape =
    greet-prelude s p (prelude ++ line ∷ lines) fresh h.0
    ∙ greet_completes s prelude line pid more lines fresh h.1 shape
