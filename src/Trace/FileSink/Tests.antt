-- ===== src/Trace/FileSink/Tests.antt =====
-- The file sink at concrete inputs.
use easymail.Base.{
  ◌≡◌, refl, true, false, Option, none, some, List, [], ◌∷◌, ◌++◌, Bytes, codes, is_empty, arith,
  if◌then◌else◌,
}
use easymail.Trace.Async.{Event, Protocol}
use easymail.Trace.FileSink.{
  Config, Sink, Call, refused, panicked, target, content, complete, new_sink, write, write_all,
}
use easymail.Trace.FileSink.Laws.{logged, write_all_refines, rotation_failure_panics}

-- A marshalling that gives the stage of an event, and refuses an event without one.
abbrev stage_of : Event → Option Bytes
stage_of e = if is_empty e.stage then none else some e.stage

abbrev at_stage : Bytes → Event
at_stage stage = record {
  timestamp = 6;
  session_id = codes "s1";
  protocol = Protocol.lmtp;
  stage = stage;
  remote = codes "r";
  local = codes "l";
  duration = 0;
  err = [];
  fields = [];
  tags = [];
}

abbrev daily : Config
daily = record { path = codes "t.d/x.log"; rotate_daily = true }

abbrev monday : Call
monday = record { day = codes "0105"; opens = true; accepts = 9 }

abbrev tuesday : Call
tuesday = record { day = codes "0106"; opens = true; accepts = 9 }

abbrev shut : Call
shut = record { day = codes "0106"; opens = false; accepts = 9 }

dated : target daily (codes "0105") ≡ codes "t.d/x_0105.log"
unfolding target
dated = refl

dated_bare : target (record daily { path = codes "t.d/x" }) (codes "0105") ≡ codes "t.d/x_0105"
unfolding target
dated_bare = refl

abbrev calls : List (Call × Event)
calls =
    (monday, at_stage (codes "a"))
    ∷ (tuesday, at_stage (codes "b"))
    ∷ (tuesday, at_stage (codes "c"))
    ∷ []

-- Behind three events, the file of the second day holds two lines, and the file of the first day one
-- behind what it held.
abbrev two_days : Sink
two_days =
    write_all stage_of calls
      ((new_sink daily (codes "0105") true ((codes "t.d/x_0105.log", codes "z") ∷ [])).0)

two_files :
    (content (codes "t.d/x_0105.log") two_days.files ≡ b'z' ∷ b'a' ∷ 10 ∷ [])
    × (content (codes "t.d/x_0106.log") two_days.files ≡ b'b' ∷ 10 ∷ b'c' ∷ 10 ∷ [])
unfolding write_all new_sink target
two_files = (refl, refl)

-- A write that takes one byte of a line leaves that byte, and the writer takes nothing behind it.
abbrev broken : Sink
broken =
    write_all stage_of
      ((record monday { accepts = 1 }, at_stage (codes "a")) ∷ (monday, at_stage (codes "b")) ∷ [])
      ((new_sink daily (codes "0105") true []).0)

half_a_line : content (codes "t.d/x_0105.log") broken.files ≡ codes "a"
unfolding write_all new_sink target
half_a_line = refl

write_all_refines_example :
    content (codes "t.d/x_0105.log") (two_days.files)
    ≡ codes "z" ++ logged stage_of (complete daily) (codes "t.d/x_0105.log") calls
write_all_refines_example =
    write_all_refines stage_of daily (codes "0105") ((codes "t.d/x_0105.log", codes "z") ∷ []) calls
      (codes "t.d/x_0105.log")
      ((refl, omega arith), ((refl, omega arith), ((refl, omega arith), tt)))

abbrev opened : Sink
opened = record {
  cfg = daily;
  file = some (codes "t.d/x_0105.log");
  failed = false;
  day_key = codes "0105";
  files = [];
}

rotation_failure_panics_example :
    ((write stage_of shut (at_stage (codes "a")) opened).1 ≡ refused)
    × ((write stage_of tuesday
          (at_stage (codes "b"))
          ((write stage_of shut (at_stage (codes "a")) opened).0)).1
        ≡ panicked)
rotation_failure_panics_example =
    rotation_failure_panics stage_of opened shut tuesday (at_stage (codes "a"))
      (at_stage (codes "b")) (codes "b") refl refl refl refl refl
