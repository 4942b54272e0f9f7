-- ===== src/Dovecot/Tests.antt =====
-- The Dovecot server at concrete connections.
use easymail.Base.{
  ◌==◌, ◌≡◌, inl, refl, Bool, true, false, List, [], ◌∷◌, arith, Bytes, codes, same, Dict, ◌&&◌,
}
use easymail.Text.{join, split, split_three}
use easymail.Dovecot.Server.{Server, start, stop, fine, not_started, panicked, restart_panics}
use easymail.Dovecot.Base64.{decode_string}
use easymail.Dovecot.Request.{attempt, request, params}
use easymail.Dovecot.Request.Laws.{auth_line, request-auth_line}
use easymail.Dovecot.Request.Sound.{Holds, request_sound}
use easymail.Dovecot.Handle.{Session, Conn, new_session, greet, serve, handle, data_line}
use easymail.Dovecot.Handle.Safety.{Among, Explained, Grown, serve-Explained}
use easymail.Dovecot.Handle.Whole.{Said, handle-Said}
use easymail.Dovecot.Handle.Refusal.{refusal_names_old_user}

-- One account, bob with the password "secret".
abbrev bob_only : Bytes → Bytes → Bool
bob_only user password = same user (codes "bob") && same password (codes "secret")

abbrev in_order : Dict Bytes → Dict Bytes
in_order m = m

abbrev good_line : Bytes
good_line = codes "AUTH\t7\tPLAIN\tservice=smtp\tresp=AGJvYgBzZWNyZXQ="

abbrev bad_line : Bytes
bad_line = codes "AUTH\t8\tPLAIN\tservice=smtp\tresp=AGV2ZQBzZWNyZXQ="

abbrev dialogue : List Bytes
dialogue = codes "VERSION\t1\t1" ∷ codes "CPID\t42" ∷ good_line ∷ codes "x" ∷ bad_line ∷ []

-- The last refusal names bob, whom the connection accepted before.
dialogue_said :
    (handle bob_only
      (λ _. false)
      in_order
      false
      (codes "9")
      (codes "1")
      (codes "c")
      dialogue
      (λ n. false)
      false).0.out
    ≡ codes "VERSION\t1\t1"
      ∷ codes "MECH\tPLAIN\tplaintext"
      ∷ codes "SPID\t9"
      ∷ codes "CUID\t1"
      ∷ codes "COOKIE\tc"
      ∷ codes "DONE"
      ∷ codes "OK\t7\tuser=bob"
      ∷ codes "FAIL\t7\tuser=bob\terror=invalid command: x"
      ∷ codes "FAIL\t8\tuser=bob\terror=invalid username or password"
      ∷ []
unfolding handle serve request split decode_string data_line
dialogue_said = refl

abbrev idle : Server
idle = record {
  name = codes "dovecot";
  stop_closed = false;
  started = true;
  family = codes "unix";
  listen = codes "/s";
  debug = false;
  has_log = true;
  count = 0;
  has_tracer = false;
}

restart_panics_example :
    ((stop idle).1 ≡ fine)
    × ((stop (stop idle).0).1 ≡ not_started)
    × ((start (stop idle).0).1 ≡ fine)
    × ((stop (start (stop idle).0).0).1 ≡ panicked)
restart_panics_example = restart_panics idle refl refl refl

request-auth_line_example :
    request (auth_line (codes "7") (codes "smtp") [] (codes "bob") (codes "secret"))
    ≡ attempt (codes "7") (codes "smtp") (codes "bob") (codes "secret")
request-auth_line_example =
    request-auth_line (codes "7") (codes "smtp") [] (codes "bob") (codes "secret") (omega arith)
      (omega arith) tt (omega arith) (omega arith)

request_sound_example :
    (ps : List Bytes) × (split 9 good_line ≡ codes "AUTH" ∷ codes "7" ∷ codes "PLAIN" ∷ ps)
    × Holds (params [] ps) (codes "smtp") (codes "bob") (codes "secret")
unfolding request
request_sound_example =
    request_sound good_line (codes "7") (codes "smtp") (codes "bob") (codes "secret")
      (unfold request split split_three decode_string in refl)

abbrev greeted : Session
greeted = record {
  cpid = codes "42";
  handshake_ok = true;
  cookie = codes "c";
  id = [];
  username = [];
  done = false;
}

abbrev quiet : Conn
quiet = record { session = greeted; reply = []; out = []; events = [] }

serve-Explained_example :
    Grown
      (Explained bob_only (good_line ∷ bad_line ∷ []))
      2
      quiet
      (serve bob_only (λ n. n == 1) in_order true (good_line ∷ bad_line ∷ []) quiet)
serve-Explained_example =
    serve-Explained bob_only (λ n. n == 1) in_order true (λ e. refl) (good_line ∷ bad_line ∷ [])
      quiet (inl refl)

handle-Said_example :
    Said bob_only
      (codes "9")
      (codes "1")
      (λ n. false)
      (greet (new_session (codes "c")) dialogue)
      (handle bob_only
        (λ _. false)
        in_order
        true
        (codes "9")
        (codes "1")
        (codes "c")
        dialogue
        (λ n. false)
        false).0.out
handle-Said_example =
    handle-Said bob_only in_order true (λ e. refl) (codes "9") (codes "1") (codes "c") dialogue
      (λ n. false) false

refusal_names_old_user_example :
    (fields : List Bytes) × Among (codes "user=bob") fields
    × ((serve bob_only (λ _. false) in_order false (good_line ∷ bad_line ∷ []) quiet).out
        ≡ codes "OK\t7\tuser=bob" ∷ join (9 ∷ []) (codes "FAIL" ∷ codes "8" ∷ fields) ∷ [])
unfolding request split split_three decode_string
refusal_names_old_user_example =
    refusal_names_old_user bob_only in_order false (λ e. refl) (λ e m h. h) good_line (codes "7")
      (codes "smtp") (codes "bob") (codes "secret") bad_line (codes "8") (codes "smtp")
      (codes "eve") (codes "secret") quiet refl refl refl refl (inl refl)
