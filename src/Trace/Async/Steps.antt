-- ===== src/Trace/Async/Steps.antt =====
-- The tracer under interleaving: goroutines that share one session, the worker, and `Close`. A
-- goroutine in `emit` first reserves its event under the session's lock and later offers it to the
-- channel, so events wait in `pending` between the two; `End` also marks the session. The worker
-- receives an event and then writes it to one sink after the other: `held` is that event with the number
-- of the sinks that have it. `delivered` and `dropped` record what the worker has written and what the
-- channel refused. A second `Close` panics, which is no step, since it ends the process.
use easymail.Base.{
  Option, none, zero, suc, ◌<◌, ℕ, ◌+◌, ◌≡◌, Bool, true, false, some, List, [], ◌∷◌, ◌++◌, Bytes,
  Dict, if◌then◌else◌, length, All,
}
use easymail.Base.Int.{pos, ◌≤ℤ◌, leb_ℤ}
use easymail.Trace.Async.{
  Event, Value, Tracer, Session, reserve, make_event, offer, mark_ended, write_at, receive,
}

pub record System : Type 0 where
  pub tracer : Tracer
  pub session : Session
  pub pending : List Event
  pub running : Bool
  pub held : Option (Event × ℕ)
  pub delivered : List Event
  pub dropped : ℕ

-- Whether the channel refuses one more event.
abbrev pub full : Tracer → Bool
full t = leb_ℤ t.cfg.queue_size (pos (length t.ch))

-- A goroutine has sent the event that stood between `p` and `q`.
abbrev pub sent : System → List Event → Event → List Event → System
sent y p e q = record y {
  tracer = offer y.tracer e;
  pending = p ++ q;
  dropped = if full y.tracer then y.dropped + 1 else y.dropped;
}

pub data Step : System → System → Type 0 where
  enter :
      (y : System) (s : Session) (now dur : ℕ) (stage err : Bytes) (fields : Dict Value)
      → reserve y.tracer.cfg y.session ≡ some s
      → Step y (record y {
        session = s;
        pending = make_event y.session now stage err fields dur ∷ y.pending;
      })
  send :
      (y : System) (p q : List Event) (e : Event) → y.pending ≡ p ++ e ∷ q → Step y (sent y p e q)
  mark : (y : System) → Step y (record y { session = mark_ended y.session })
  take_event :
      (y : System) (t : Tracer) (e : Event)
      → y.running ≡ true
      → y.held ≡ none
      → receive y.tracer ≡ some (e, t)
      → Step y (record y { tracer = t; held = some (e, 0) })
  put :
      (y : System) (e : Event) (k : ℕ)
      → y.held ≡ some (e, k)
      → k < length y.tracer.sinks
      → Step y (record y {
        tracer = record (y.tracer) { sinks = write_at k e y.tracer.sinks };
        held = some (e, suc k);
      })
  release :
      (y : System) (e : Event)
      → y.held ≡ some (e, length y.tracer.sinks)
      → Step y (record y { held = none; delivered = y.delivered ++ e ∷ [] })
  stop :
      (y : System)
      → y.tracer.stopped ≡ false
      → Step y (record y { tracer = record (y.tracer) { stopped = true } })
  finish :
      (y : System)
      → y.tracer.stopped ≡ true
      → y.held ≡ none
      → y.tracer.ch ≡ []
      → Step y (record y { running = false })

pub data Reach (y : System) : System → Type 0 where
  here : Reach y y
  next : {u v : System} → Reach y u → Step u v → Reach y v

-- The first `k` logs have the held event behind the delivered ones, and the others do not.
abbrev pub AreAhead : List Event → Event → ℕ → List (List Event) → Type 0
AreAhead done e zero sinks = All (λ log. log ≡ done) sinks
AreAhead done e (suc k) [] = ⊥
AreAhead done e (suc k) (log ∷ sinks) = (log ≡ done ++ e ∷ []) × AreAhead done e k sinks

-- What the sinks have received, by what the worker holds.
abbrev pub AreLogs : List Event → Option (Event × ℕ) → List (List Event) → Type 0
AreLogs done none sinks = All (λ log. log ≡ done) sinks
AreLogs done (some (e, k)) sinks = AreAhead done e k sinks

-- The number of events that the worker holds.
abbrev pub held_count : Option (Event × ℕ) → ℕ
held_count none = 0
held_count (some _) = 1

-- Every event that the session counted is in one place; the session and the channel keep their
-- bounds; and all sinks have received what the worker has written, in its order, and the first of
-- them the event that it holds.
pub record IsSound (y : System) : Type 0 where
  pub counted :
      length y.delivered + held_count y.held + length y.tracer.ch + length y.pending + y.dropped
      ≡ y.session.event_cnt
  pub capped : pos y.session.event_cnt ≤ℤ y.tracer.cfg.max_events_per_sess
  pub room : pos (length y.tracer.ch) ≤ℤ y.tracer.cfg.queue_size
  pub logs : AreLogs y.delivered y.held y.tracer.sinks

-- The system that `NewAsync` and `NewSession` leave.
abbrev pub start : Tracer → Session → System
start t s = record {
  tracer = t;
  session = s;
  pending = [];
  running = true;
  held = none;
  delivered = [];
  dropped = 0;
}
