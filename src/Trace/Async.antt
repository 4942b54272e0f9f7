-- ===== src/Trace/Async.antt =====
-- internal/pkg/tracer/sessiontrace/async.go, types.go and noop.go: the asynchronous tracer. A
-- tracer's channel is a bounded list of events, and a sink is the list of the events written to it.
-- What a critical section does, and what a send or a receive does, are functions of their own, as
-- other goroutines may run between them.
pub mod Steps
pub mod Sound
pub mod Liveness
use easymail.Base.{
  ℕ, zero, suc, ◌+◌, ◌-◌, Bool, true, false, ◌||◌, not, Option, none, some, List, [], ◌∷◌, ◌++◌,
  map, Bytes, codes, Dict, leb, ltb, if◌then◌else◌, is_empty, length,
}
use easymail.Base.Int.{ℤ, pos, negsuc, leb_ℤ}
use easymail.Trace.Util.{trunc}

-- `Protocol`.
pub data Protocol : Type 0 where
  lmtp milter policy auth : Protocol

-- The values of a `map[string]any` that the code puts in.
pub data Value : Type 0 where
  text : Bytes → Value
  flag : Bool → Value

-- `Event`; times and durations in nanoseconds.
pub record Event : Type 0 where
  pub timestamp : ℕ
  pub session_id : Bytes
  pub protocol : Protocol
  pub stage : Bytes
  pub remote : Bytes
  pub local : Bytes
  pub duration : ℕ
  pub err : Bytes
  pub fields : Dict Value
  pub tags : Dict Bytes

-- `SessionMeta`.
pub record SessionMeta : Type 0 where
  pub protocol : Protocol
  pub remote : Bytes
  pub local : Bytes
  pub tags : Dict Bytes

-- `Config`.
pub record Config : Type 0 where
  pub enabled : Bool
  pub queue_size : ℤ
  pub max_field_value_bytes : ℤ
  pub max_events_per_sess : ℤ

-- `asyncTracer`: its channel `ch`, whether `stopCh` is closed, and what each sink has received.
pub record Tracer : Type 0 where
  pub cfg : Config
  pub sinks : List (List Event)
  pub ch : List Event
  pub stopped : Bool

-- `asyncSession`, without the pointer to its tracer.
pub record Session : Type 0 where
  pub id : Bytes
  pub meta : SessionMeta
  pub started : ℕ
  pub event_cnt : ℕ
  pub ended : Bool

-- The default that stands for a setting of zero or less.
abbrev default : ℤ → ℕ → ℤ
default v d = if leb_ℤ v (pos 0) then pos d else v

-- The settings as `NewAsync` completes them.
unfoldable pub complete : Config → Config
complete cfg = record cfg {
  queue_size = default cfg.queue_size 4096;
  max_field_value_bytes = default cfg.max_field_value_bytes 2048;
  max_events_per_sess = default cfg.max_events_per_sess 500;
}

-- `NewAsync(cfg, sinks...)`; `none` is the tracer of `NewNoop`, which does nothing.
unfoldable pub new_async : Config → List (List Event) → Option Tracer
unfolding complete
new_async cfg [] = none
new_async cfg (s ∷ sinks) =
    if not cfg.enabled
    then none
    else some (record { cfg = complete cfg; sinks = s ∷ sinks; ch = []; stopped = false })

-- `NewSession(ctx, meta)`, with the identifier that is drawn and the time.
unfoldable pub new_session : Bytes → ℕ → SessionMeta → Session
new_session id now meta = record {
  id = id;
  meta = meta;
  started = now;
  event_cnt = 0;
  ended = false;
}

-- The critical section of `emit`: the session with one event more, or `none` when it returns.
unfoldable pub reserve : Config → Session → Option Session
reserve cfg s =
    if s.ended || leb_ℤ cfg.max_events_per_sess (pos s.event_cnt)
    then none
    else some (record s { event_cnt = s.event_cnt + 1 })

-- The event that `emit` builds.
unfoldable pub make_event : Session → ℕ → Bytes → Bytes → Dict Value → ℕ → Event
make_event s now stage err_msg fields dur = record {
  timestamp = now;
  session_id = s.id;
  protocol = s.meta.protocol;
  stage = stage;
  remote = s.meta.remote;
  local = s.meta.local;
  duration = dur;
  err = err_msg;
  fields = fields;
  tags = s.meta.tags;
}

-- The send of `emit`: the event is dropped when the channel is full.
unfoldable pub offer : Tracer → Event → Tracer
offer t e =
    if leb_ℤ t.cfg.queue_size (pos (length t.ch)) then t else record t { ch = t.ch ++ e ∷ [] }

-- `emit`, where no other goroutine runs in between.
unfoldable pub emit : ℕ → Bytes → Bytes → Dict Value → ℕ → Tracer × Session → Tracer × Session
unfolding reserve make_event offer
emit now stage err_msg fields dur (t, s) = elim (reserve t.cfg s) [
  | none ↦ (t, s)
  | some s' ↦ (offer t (make_event s now stage err_msg fields dur), s')
]

-- `Event(stage, fields)`.
unfoldable pub event : ℕ → Bytes → Dict Value → Tracer × Session → Tracer × Session
unfolding emit
event now stage fields = emit now stage [] fields 0

-- `Error(stage, err, fields)`; the error's text, if there is an error.
unfoldable pub error : ℕ → Bytes → Option Bytes → Dict Value → Tracer × Session → Tracer × Session
unfolding emit trunc
error now stage none fields = emit now stage [] fields 0
error now stage (some e) fields = emit now stage (trunc e (pos 2048)) fields 0

-- The last lines of `End`.
unfoldable pub mark_ended : Session → Session
mark_ended s = record s { ended = true }

-- `End(stage, fields)`.
unfoldable pub end_session : ℕ → Bytes → Dict Value → Tracer × Session → Tracer × Session
unfolding emit mark_ended
end_session now stage fields (t, s) =
    let (t', s') = emit now stage [] fields (now - s.started) (t, s) in (t', mark_ended s')

-- `for _, s := range t.sinks { _ = s.Write(ctx, e) }`; the sinks' errors are ignored.
unfoldable pub write_all : Event → List (List Event) → List (List Event)
write_all e sinks = map (λ log. log ++ e ∷ []) sinks

-- The loop of `run` receives one event, and writes it afterwards, to one sink after the other. Nothing
-- is received from an empty channel.
taken : Tracer → List Event → Option (Event × Tracer)
taken t [] = none
taken t (e ∷ rest) = some (e, record t { ch = rest })

unfoldable pub receive : Tracer → Option (Event × Tracer)
unfolding taken
receive t = taken t t.ch

-- `_ = s.Write(ctx, e)` for the sink with the number `k`.
unfoldable pub write_at : ℕ → Event → List (List Event) → List (List Event)
write_at k e [] = []
write_at zero e (log ∷ sinks) = (log ++ e ∷ []) ∷ sinks
write_at (suc k) e (log ∷ sinks) = log ∷ write_at k e sinks

-- The loop of `run` behind a closed `stopCh`: it writes what is in the channel, and returns.
drain : List Event → List (List Event) → List (List Event)
unfolding write_all
drain [] sinks = sinks
drain (e ∷ ch) sinks = drain ch (write_all e sinks)

-- The first error of the sinks' `Close`; each is closed, whatever the others return.
unfoldable pub first_error : List (Option Bytes) → Option Bytes
first_error [] = none
first_error (none ∷ es) = first_error es
first_error (some e ∷ es) = some e

-- The tracer when its worker has returned.
unfoldable pub run_out : Tracer → Tracer
unfolding drain
run_out t = record t { stopped = true; ch = []; sinks = drain t.ch t.sinks }

-- `Close` with the end of a worker that holds no event, for which it waits, and with what closing each
-- sink returns; none for the panic at a second closing of `stopCh`.
unfoldable pub close : List (Option Bytes) → Tracer → Option (Tracer × Option Bytes)
unfolding run_out first_error
close errors t = if t.stopped then none else some (run_out t, first_error errors)
