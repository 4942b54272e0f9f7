-- ===== src/Dovecot/Handle.antt =====
-- One connection: `Handle` of internal/app/service/dovecot/server.go, over the sessions of
-- session.go. The lines that the scanner yields are a list, and its error a test on the number of
-- lines that are left, since it may have one before it has yielded them all; the lines written to the socket are collected in `out`. What the code calls and does not define is a
-- parameter: `authenticate` for the identity service, `fails` for which write to the socket fails
-- (by the number of lines written before), and `order` for the order in which Go walks a map.
pub mod Safety
pub mod Greeting
pub mod Whole
pub mod Refusal
pub mod Login
use easymail.Base.{
  ℕ, ◌+◌, ◌≡◌, refl, Bool, true, false, not, Option, none, some, List, [], ◌∷◌, ◌++◌, map, Bytes,
  codes, same, Dict, lookup, insert, erase, if◌then◌else◌, length,
}
use easymail.Text.{split, join}
use easymail.Trace.Util.{mask_email}
use easymail.Trace.Async.{Value, text, flag}
use easymail.Dovecot.Request.{Request, refused, refused_as, ignored, attempt, request}

-- `Session`, without its socket.
pub record Session : Type 0 where
  pub cpid : Bytes
  pub handshake_ok : Bool
  pub cookie : Bytes
  pub id : Bytes
  pub username : Bytes
  pub done : Bool

-- `NewSession(socket)`, with the cookie that is drawn.
unfoldable pub new_session : Bytes → Session
new_session cookie = record {
  cpid = [];
  handshake_ok = false;
  cookie = cookie;
  id = [];
  username = [];
  done = false;
}

-- The variables of `Handle`: the session, the map `data`, what was written, and the events of the
-- trace.
pub record Conn : Type 0 where
  pub session : Session
  pub reply : Dict Bytes
  pub out : List Bytes
  pub events : List (Bytes × Dict Value)

-- The errors that `Handle` returns.
pub data Failure : Type 0 where
  invalid_command invalid_version read_error handshake_failed : Failure
  send_version send_mech send_spid send_cuid send_cookie send_done close_failed : Failure

-- How the first loop ends.
pub data Greeted : Type 0 where
  ready : Session → List Bytes → Greeted
  rejected : Failure → Session → Greeted
  exhausted : Session → Greeted

-- One line of the first loop: the session behind it, or the error.
greet_line : Session → List Bytes → Option Failure × Session
greet_line s (cmd ∷ arg ∷ rest) =
    if same cmd (codes "VERSION")
    then (if not (same arg (codes "1")) then (some invalid_version, s) else (none, s))
    else if same cmd (codes "CPID")
    then (none, record s { cpid = arg; handshake_ok = true })
    else (none, s)
greet_line s _ = (some invalid_command, s)

-- The first loop, with the lines that it leaves to be read.
pub greet : Session → List Bytes → Greeted
unfolding greet_line split
greet s [] = exhausted s
greet s (line ∷ lines) =
    let (e, s') = greet_line s (split 9 line) in
    let rest = greet s' lines in
    elim e [
      | some e' ↦ rejected e' s'
      | none ↦ elim (s'.handshake_ok) [ true ↦ ready s' lines | false ↦ rest ]
    ]

-- The lines of the second step, each with the error of its write.
abbrev pub greeting : Bytes → Bytes → Bytes → List (Failure × Bytes)
greeting pid count cookie =
    (send_version, codes "VERSION\t1\t1")
    ∷ (send_mech, codes "MECH\tPLAIN\tplaintext")
    ∷ (send_spid, codes "SPID\t" ++ pid)
    ∷ (send_cuid, codes "CUID\t" ++ count)
    ∷ (send_cookie, codes "COOKIE\t" ++ cookie)
    ∷ (send_done, codes "DONE")
    ∷ []

-- The writes of the second step, up to the first that fails.
pub send_all : (ℕ → Bool) → List (Failure × Bytes) → List Bytes → Option Failure × List Bytes
send_all fails [] out = (none, out)
send_all fails ((e, line) ∷ lines) out = elim (fails (length out)) [
  | true ↦ (some e, out)
  | false ↦ send_all fails lines (out ++ line ∷ [])
]

-- An event of the trace, if there is a tracer.
pub note : Bool → Bytes → Dict Value → Conn → Conn
note traced stage fields c =
    if traced then record c { events = c.events ++ (stage, fields) ∷ [] } else c

module _ (authenticate : Bytes → Bytes → Bool) (fails : ℕ → Bool)
    (order : Dict Bytes → List (Bytes × Bytes)) (traced : Bool) where
  -- `sendLine`, whose error the third step ignores.
  send_line : Bytes → Conn → Conn
  send_line line c = if fails (length c.out) then c else record c { out = c.out ++ line ∷ [] }

  -- The line of `sendData`.
  unfoldable pub data_line : Bool → Bytes → Dict Bytes → Bytes
  unfolding join
  data_line success id m =
      join (9 ∷ []) (
        (if success then codes "OK" else codes "FAIL")
        ∷ id
        ∷ map (λ e. e.0 ++ b'=' ∷ e.1) (order m))

  -- `sendData(success, data)`.
  send_data : Bool → Conn → Conn
  unfolding send_line data_line
  send_data success c = send_line (data_line success c.session.id c.reply) c

  -- `data["error"] = msg` and the reply.
  refuse : Bytes → Conn → Conn
  unfolding send_data
  refuse msg c = send_data false (record c { reply = insert (codes "error") msg c.reply })

  -- The answer to an attempt, once its user name stands in the session.
  settle : Bytes → Bytes → Conn → Conn
  unfolding send_data refuse note
  settle user password c =
      let shown = text (mask_email user) in
      if authenticate user password
      then note traced (codes "auth_result") ((codes "user", shown) ∷ (codes "ok", flag true) ∷ [])
          (send_data true (record c {
            session = record (c.session) { done = true };
            reply = insert (codes "user") user (erase (codes "error") c.reply);
          }))
      else note traced (codes "auth_result")
          ((codes "user", shown)
            ∷ (codes "ok", flag false)
            ∷ (codes "reason", text (codes "invalid_credentials"))
            ∷ [])
          (refuse (codes "invalid username or password") c)

  -- An attempt.
  try_login : Bytes → Bytes → Bytes → Bytes → Conn → Conn
  unfolding settle note
  try_login id service user password c = settle user password (
      note traced (codes "auth_attempt")
        ((codes "user", text (mask_email user)) ∷ (codes "service", text service) ∷ [])
        (record c { session = record (c.session) { id = id; username = user } }))

  -- One line of the third step.
  answer : Request → Conn → Conn
  unfolding refuse try_login
  answer (refused msg) c = refuse msg c
  answer (refused_as id msg) c = refuse msg (record c { session = record (c.session) { id = id } })
  answer ignored c = c
  answer (attempt id service user password) c = try_login id service user password c

  -- The loop of the third step.
  unfoldable pub serve : List Bytes → Conn → Conn
  unfolding answer request
  serve [] c = c
  serve (line ∷ lines) c = serve lines (answer (request line) c)

  -- What follows the first loop: the greeting, and the loop of the third step. `read_fails n` is
  -- whether `scanner.Err()` is an error once all but `n` lines are read.
  converse : Bytes → Bytes → (ℕ → Bool) → Greeted → Conn → Conn × Option Failure
  unfolding serve note send_all
  converse pid count read_fails (rejected e s) c = (record c { session = s }, some e)
  converse pid count read_fails (exhausted s) c =
      if read_fails 0 then (record c { session = s }, some read_error) else (
        note traced (codes "handshake_failed") [] (record c { session = s }),
        some handshake_failed,
      )
  converse pid count read_fails (ready s lines) c =
      if read_fails (length lines)
      then (record c { session = s }, some read_error)
      else let c' =
          note traced (codes "handshake_ok") ((codes "cpid", text s.cpid) ∷ [])
            (record c { session = s }) in
        let (e, out) = send_all fails (greeting pid count s.cookie) c'.out in
        elim e [
          | some f ↦ (record c' { out = out }, some f)
          | none ↦ (serve lines (record c' { out = out }), none)
        ]

  -- `Handle(conn)`, with the process's number, the server's counter behind its increment, the
  -- cookie, the lines that are read, the error of reading by the lines that are left, and whether closing the
  -- socket fails. The deferred close overwrites the result that the body returns.
  unfoldable pub handle :
      Bytes → Bytes → Bytes → List Bytes → (ℕ → Bool) → Bool → Conn × Option Failure
  unfolding converse new_session greet note
  handle pid count cookie lines read_fails close_fails =
      let s = new_session cookie in
      let c : Conn = record { session = s; reply = []; out = []; events = [] } in
      let (c', e) =
        converse pid count read_fails (greet s lines) (note traced (codes "connect") [] c) in
      (note traced (codes "disconnect") [] c', if close_fails then some close_failed else none)
