-- ===== src/Trace/Async/Liveness.antt =====
-- The end of the worker: what is queued when the tracer is closed.
use easymail.Base.{ℕ, zero, suc, none, some, List, [], ◌∷◌, ◌++◌}
use easymail.Trace.Async.{Event, write_all, write_at, drain}
use easymail.Trace.Async.Steps.{System}

-- The writes to `n` sinks from the number `k` on.
put_from : ℕ → ℕ → Event → List (List Event) → List (List Event)
put_from zero k e sinks = sinks
put_from (suc n) k e sinks = put_from n (suc k) e (write_at k e sinks)

-- The worker holds an event that `k` sinks have.
abbrev midway : Event → ℕ → List (List Event) → System → System
midway e k sinks y = record y { tracer = record (y.tracer) { sinks = sinks }; held = some (e, k) }

-- The worker has written what was in the channel.
abbrev drained : List Event → System → System
drained ch y = record y {
  tracer = record (y.tracer) { ch = []; sinks = drain ch (y.tracer).sinks };
  held = none;
  delivered = y.delivered ++ ch;
}

-- What one round of the worker leaves.
abbrev round : Event → List Event → System → System
round e ch y = record y {
  tracer = record (y.tracer) { ch = ch; sinks = write_all e (y.tracer).sinks };
  held = none;
  delivered = y.delivered ++ e ∷ [];
}
