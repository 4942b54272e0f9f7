-- ===== src/Trace/Tests.antt =====
-- The tracer and its helpers at concrete inputs; the first tests are those of util_test.go.
use easymail.Base.{List, Option, none, some, Bytes, ◌≡◌, refl, true, false, [], ◌∷◌, codes}
use easymail.Base.Int.{pos}
use easymail.Text.{to_lower, trim_space, split_two}
use easymail.Trace.Util.{trunc, mask_email}
use easymail.Trace.Async
use easymail.Trace.Async.{
  Config, Tracer, Session, SessionMeta, Event, complete, new_async, new_session, reserve, event,
  end_session, run_out, make_event,
}
use easymail.Trace.Async.Steps.{System, enter, here, next, IsSound, start}
use easymail.Trace.Async.Sound.{new_async-IsSound}

truncated : (trunc (codes "abc") (pos 2) ≡ codes "ab") × (trunc (codes "ab") (pos 0) ≡ codes "ab")
unfolding trunc
truncated = (refl, refl)

masked : mask_email (codes " ABcd@b.com ") ≡ codes "ab***@b.com"
unfolding mask_email to_lower trim_space split_two
masked = refl

masked_short : mask_email (codes "a@b.com") ≡ codes "***@b.com"
unfolding mask_email to_lower trim_space split_two
masked_short = refl

abbrev small : Config
small = record {
  enabled = true;
  queue_size = pos 1;
  max_field_value_bytes = pos 0;
  max_events_per_sess = pos 2;
}

abbrev meta : SessionMeta
meta = record { protocol = Async.lmtp; remote = codes "r"; local = codes "l"; tags = [] }

abbrev tracer : Tracer
tracer = record { cfg = complete small; sinks = [] ∷ [] ∷ []; ch = []; stopped = false }

abbrev session : Session
session = record { id = codes "s1"; meta = meta; started = 5; event_cnt = 0; ended = false }

abbrev first_event : Event
first_event = record {
  timestamp = 6;
  session_id = codes "s1";
  protocol = Async.lmtp;
  stage = codes "a";
  remote = codes "r";
  local = codes "l";
  duration = 0;
  err = [];
  fields = [];
  tags = [];
}

-- The second event finds the channel full, and the third is over the session's limit; the worker
-- writes the first to both sinks.
two_sinks :
    (run_out
      (end_session 9
        (codes "end")
        []
        (event 7 (codes "b") [] (event 6 (codes "a") [] (tracer, session)))).0).sinks
    ≡ (first_event ∷ []) ∷ (first_event ∷ []) ∷ []
unfolding run_out end_session event complete
two_sinks = refl

new_async-IsSound_example : IsSound (record (start tracer (new_session (codes "s1") 5 meta)) {
  session = record (new_session (codes "s1") 5 meta) { event_cnt = 1 };
  pending = make_event (new_session (codes "s1") 5 meta) 6 (codes "a") [] [] 0 ∷ [];
})
unfolding new_async reserve new_session complete
new_async-IsSound_example =
    new_async-IsSound small ([] ∷ [] ∷ []) tracer (codes "s1") 5 meta _ (refl, (refl, tt)) refl
      (next here (enter _ _ 6 0 (codes "a") [] [] refl))

abbrev over : System
over = start tracer (record session { ended = true; event_cnt = 1 })

abbrev stopped : System
stopped = record over { tracer = record tracer { stopped = true } }

-- A tracer with an event in its channel.
abbrev queued : System
queued = start (record tracer { ch = first_event ∷ [] }) session

-- The second sink fails to close.
abbrev closings : List (Option Bytes)
closings = none ∷ some (codes "disk") ∷ []
