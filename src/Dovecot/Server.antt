-- ===== src/Dovecot/Server.antt =====
-- The life of a server, of internal/app/service/dovecot/server.go: `New`, the setters, `Start`,
-- `Stop` and the accept loop `run`. Each method is one critical section.
use easymail.Base.{
  ℕ, ◌≡◌, Bool, true, false, ◌&&◌, not, Option, none, some, List, [], ◌∷◌, arith, Bytes, codes,
  same, is_empty, if◌then◌else◌,
}
use easymail.Text.{split, trim_space}

-- `Server`, with whether it has a logger and a tracer, and whether `stopCh` is closed.
pub record Server : Type 0 where
  pub name : Bytes
  pub stop_closed : Bool
  pub started : Bool
  pub family : Bytes
  pub listen : Bytes
  pub debug : Bool
  pub has_log : Bool
  pub count : ℕ
  pub has_tracer : Bool

-- `host:port`.
is_pair : List Bytes → Bool
is_pair (a ∷ b ∷ []) = true
is_pair _ = false

-- `New(family, listen)`; `none` is the nil pointer.
unfoldable pub new : Bytes → Bytes → Option Server
unfolding is_pair
new family listen =
    if not (same family (codes "tcp")) && not (same family (codes "unix"))
    then none
    else if same family (codes "tcp") && not (is_pair (split b':' listen))
    then none
    else if same family (codes "unix") && is_empty (trim_space listen)
    then none
    else some (record {
      name = codes "dovecot";
      stop_closed = false;
      started = false;
      family = family;
      listen = listen;
      debug = false;
      has_log = false;
      count = 0;
      has_tracer = false;
    })

-- `SetDebug(debug)`.
unfoldable pub set_debug : Bool → Server → Server
set_debug debug s = record s { debug = debug }

-- `SetTracer(t)`.
unfoldable pub set_tracer : Server → Server
set_tracer s = record s { has_tracer = true }

-- How a method ends: normally, with an error, or in a panic.
pub data Ending : Type 0 where
  fine no_logger already_started not_started panicked : Ending

-- `SetLogger(_log)`, of whether the logger is not nil.
unfoldable pub set_logger : Bool → Server → Server × Ending
set_logger false s = (s, no_logger)
set_logger true s = (record s { has_log = true }, fine)

-- `Start()`; the goroutine of `run` that it begins is `accepts` below.
unfoldable pub start : Server → Server × Ending
start s =
    if not s.has_log
    then (s, no_logger)
    else if s.started
    then (s, already_started)
    else (record s { started = true }, fine)

-- `Stop()`. Closing a closed channel panics; the flag has been cleared by then.
unfoldable pub stop : Server → Server × Ending
stop s =
    if not s.started
    then (s, not_started)
    else if s.stop_closed
    then (record s { started = false }, panicked)
    else (record s { started = false; stop_closed = true }, fine)

-- The loop of `run`. Each round has whether `stopCh` is closed when the loop looks at it, and the
-- connection that `Accept` returns, or none for its error. The result is the connections handed to
-- `Handle`.
unfoldable pub accepts {ℓ} : {C : Type ℓ} → List (Bool × Option C) → List C
accepts [] = []
accepts ((true, c) ∷ rounds) = []
accepts ((false, none) ∷ rounds) = []
accepts ((false, some c) ∷ rounds) = c ∷ accepts rounds

-- A server that runs stops once. Started and stopped a second time it panics, since `Start` makes no
-- new channel.
pub restart_panics :
    (s : Server)
    → s.started ≡ true
    → s.has_log ≡ true
    → s.stop_closed ≡ false
    → ((stop s).1 ≡ fine)
      × ((stop (stop s).0).1 ≡ not_started)
      × ((start (stop s).0).1 ≡ fine)
      × ((stop (start (stop s).0).0).1 ≡ panicked)
unfolding stop start
restart_panics s a b c = ground arith

-- A started server refuses to start again and is left as it is; a server without a logger never
-- starts.
pub start_once :
    (s : Server)
    → ((start s).1 ≡ fine → (start (start s).0 ≡ ((start s).0, already_started)))
      × (s.has_log ≡ false → start s ≡ (s, no_logger))
unfolding start
start_once s = ground arith
