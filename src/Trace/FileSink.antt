-- ===== src/Trace/FileSink.antt =====
-- internal/pkg/tracer/sessiontrace/filejsonl/sink.go: the sink that appends events to a file, one line
-- of JSON each, with a new file each day if it is asked to. What the operating system answers is an
-- argument: the day that the clock shows, whether a directory and a file can be opened, and how many
-- bytes a write takes. The marshalling of an event is a parameter.
pub mod Laws
pub mod Tests
use mathlib.Core.List.{reverse}
use easymail.Base.{
  ℕ, ◌+◌, Bool, true, false, ◌&&◌, ◌||◌, not, Option, none, some, List, [], ◌∷◌, ◌++◌, Bytes, codes,
  same, is_empty, Dict, lookup, insert, ltb, ◌==◌, take, length, if◌then◌else◌,
}
use easymail.Trace.Async.{Event}

-- `Config`, without the interval that nothing reads.
pub record Config : Type 0 where
  pub path : Bytes
  pub rotate_daily : Bool

-- `Sink`: the path of the open file, of which `file` and `writer` are both nil or both not; whether
-- the writer has failed, which bufio remembers; and the files of the system.
pub record Sink : Type 0 where
  pub cfg : Config
  pub file : Option Bytes
  pub failed : Bool
  pub day_key : Bytes
  pub files : Dict Bytes

-- The text in front of the extension, and the extension with its dot, both in reverse.
cut_ext : Bytes → Option (Bytes × Bytes)
cut_ext [] = none
cut_ext (c ∷ s) =
    let rest = cut_ext s in
    if c == b'.'
    then some (s, c ∷ [])
    else if c == b'/'
    then none
    else elim rest [ none ↦ none | some (a, e) ↦ some (a, c ∷ e) ]

-- `_` and the day, between the text and the extension of the path.
dated_parts : Bytes → Bytes → Option (Bytes × Bytes) → Bytes
dated_parts path day none = path ++ (b'_' ∷ day)
dated_parts path day (some (a, e)) = reverse a ++ (b'_' ∷ (day ++ reverse e))

-- The path that `openLocked` opens on a day.
unfoldable pub target : Config → Bytes → Bytes
unfolding cut_ext dated_parts
target cfg day =
    if cfg.rotate_daily then dated_parts cfg.path day (cut_ext (reverse cfg.path)) else cfg.path

-- What the file holds; nothing, when it is not there.
abbrev pub content : Bytes → Dict Bytes → Bytes
content p fs = elim (lookup p fs) [ none ↦ [] | some s ↦ s ]

-- How an operation ends.
pub data Ending : Type 0 where
  fine refused panicked : Ending

-- `openLocked(now)`; the day is taken over before anything is opened.
unfoldable pub open_locked : Bytes → Bool → Sink → Sink × Ending
open_locked day opens s =
    let key = if s.cfg.rotate_daily then day else s.day_key in
    let p = target s.cfg day in
    if opens
    then (
      record s {
        file = some p;
        failed = false;
        day_key = key;
        files = insert p (content p s.files) s.files;
      },
      fine,
    )
    else (record s { day_key = key }, refused)

-- `closeLocked()`, without its error: every write has been flushed.
unfoldable pub close_locked : Sink → Sink
close_locked s = record s { file = none; failed = false }

-- The settings as `New` completes them.
abbrev pub complete : Config → Config
complete cfg = if is_empty cfg.path then record cfg { path = codes "session_trace.jsonl" } else cfg

-- `New(cfg)`.
unfoldable pub new_sink : Config → Bytes → Bool → Dict Bytes → Sink × Ending
unfolding open_locked
new_sink cfg day opens fs =
    open_locked day opens
      (record { cfg = complete cfg; file = none; failed = false; day_key = []; files = fs })

-- The rotation at the head of `Write`.
unfoldable pub rotate : Bytes → Bool → Sink → Sink × Ending
unfolding open_locked close_locked
rotate day opens s =
    if s.cfg.rotate_daily && not (same day s.day_key)
    then open_locked day opens (close_locked s)
    else (s, fine)

-- The writes of a line and their flush, into the open file. A write through the nil writer panics, and
-- a writer that has failed takes no more.
write_to : Bytes → ℕ → Option Bytes → Sink → Sink × Ending
write_to line accepts none s = (s, panicked)
write_to line accepts (some p) s =
    if s.failed
    then (s, refused)
    else if ltb accepts (length line)
    then (
      record s { failed = true; files = insert p (content p s.files ++ take accepts line) s.files },
      refused,
    )
    else (record s { files = insert p (content p s.files ++ line) s.files }, fine)

-- The marshalled event, if it could be, and the line end.
write_marshalled : Option Bytes → ℕ → Sink → Sink × Ending
unfolding write_to
write_marshalled none accepts s = (s, refused)
write_marshalled (some b) accepts s = write_to (b ++ (10 ∷ [])) accepts s.file s

-- The circumstances of a call: the day, whether the file can be opened, and the bytes a write takes.
pub record Call : Type 0 where
  pub day : Bytes
  pub opens : Bool
  pub accepts : ℕ

module _ (marshal : Event → Option Bytes) where
  -- What follows the rotation.
  write_rotated : Call → Event → Sink × Ending → Sink × Ending
  unfolding write_marshalled
  write_rotated c e (s, refused) = (s, refused)
  write_rotated c e (s, panicked) = (s, panicked)
  write_rotated c e (s, fine) = write_marshalled (marshal e) c.accepts s

  -- `Write(ctx, e)`.
  unfoldable pub write : Call → Event → Sink → Sink × Ending
  unfolding write_rotated rotate
  write c e s = write_rotated c e (rotate c.day c.opens s)

  -- One `Write` after another; the worker ignores their errors.
  unfoldable pub write_all : List (Call × Event) → Sink → Sink
  unfolding write
  write_all [] s = s
  write_all ((c, e) ∷ calls) s = write_all calls ((write c e s).0)
