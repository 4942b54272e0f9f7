-- ===== src/Milter/Response.antt =====
-- internal/app/service/milter/response.go: the answers of a filter, and which of them let the
-- message go on.
use easymail.Base.{
  ℕ, ◌≡◌, ◌≢◌, ◌↔◌, Bool, true, false, ◌||◌, not, List, [], ◌∷◌, ◌++◌, arith, Bytes, ◌==◌,
}
use easymail.Milter.Codes.{
  Message, ActionCode, accept, continue, discard, reject, temp_fail, action_byte,
}

-- The implementations of the interface `Response`.
pub data Response : Type 0 where
  simple : ℕ → Response
  custom : ℕ → Bytes → Response

-- `Response()`; the nil payload of a simple response is the empty one.
unfoldable pub message : Response → Message
message (simple c) = record { code = c; payload = [] }
message (custom c d) = record { code = c; payload = d }

-- The loop of `CustomResponse.Continue`.
stops_at : ℕ → List ActionCode → Bool
unfolding action_byte
stops_at c [] = false
stops_at c (a ∷ as') = c == action_byte a || stops_at c as'

-- `Continue()`.
unfoldable pub continues : Response → Bool
unfolding action_byte stops_at
continues (simple c) = c == action_byte continue
continues (custom c d) = not (stops_at c (accept ∷ discard ∷ reject ∷ temp_fail ∷ []))

-- `NewResponse` and `NewResponseStr`.
abbrev pub new_response : ℕ → Bytes → Response
new_response = custom

abbrev pub new_response_str : ℕ → Bytes → Response
new_response_str code d = new_response code (d ++ 0 ∷ [])

-- `RespAccept` to `RespTempFail`.
abbrev pub predefined : List ActionCode
predefined = accept ∷ continue ∷ discard ∷ reject ∷ temp_fail ∷ []

-- A custom response with the code of an action answers `Continue` like the simple response of that
-- code, except at a skip and at a reply code, where they differ.
pub continues_agree :
    (a : ActionCode) (d : Bytes)
    → (continues (simple (action_byte a)) ≡ continues (custom (action_byte a) d))
      ↔ ((a ≢ ActionCode.skip) × (a ≢ ActionCode.reply_code))
unfolding continues
continues_agree ActionCode.accept d = ground arith
continues_agree _ d = ground arith

-- A response of any code stops the chain exactly when a simple one does not carry `c` and a custom
-- one carries `a`, `d`, `r` or `t`.
pub continues_iff :
    (c : ℕ) (d : Bytes)
    → ((continues (simple c) ≡ true) ↔ (c ≡ b'c'))
      × ((continues (custom c d) ≡ true) ↔ ((c ≢ b'a') × (c ≢ b'd') × (c ≢ b'r') × (c ≢ b't')))
unfolding continues
continues_iff c d = ground arith
