-- ===== src/Trace/DbSink.antt =====
-- internal/pkg/tracer/sessiontrace/dbsink (model.go, sink.go): the sink that inserts a row for each
-- event. The marshalling of an event's fields and of its tags is a parameter, as is gorm.
use easymail.Base.{ℕ, Bool, ◌||◌, not, Option, none, some, List, Bytes, codes, Dict, if◌then◌else◌}
use easymail.Model.Gorm.{Gorm}
use easymail.Trace.Async.{Event, Value, Protocol, lmtp, milter, policy, auth}

-- `SessionEvent`.
pub record SessionEvent : Type 0 where
  pub id : ℕ
  pub ts : ℕ
  pub session_id : Bytes
  pub protocol : Bytes
  pub stage : Bytes
  pub remote : Bytes
  pub local : Bytes
  pub duration : ℕ
  pub err : Bytes
  pub fields : Bytes
  pub tags : Bytes

-- What `New` returns: no sink and no error, an error, or a sink.
pub data Opening : Type 0 where
  disabled failed opened : Opening

-- `New(cfg)`: whether the sink is enabled, the database is there, and the table can be migrated.
unfoldable pub open_sink : Bool → Bool → Bool → Opening
open_sink enabled connected migrates =
    if not enabled then disabled else if not connected || not migrates then failed else opened

-- The text of a protocol.
unfoldable pub protocol_text : Protocol → Bytes
protocol_text lmtp = codes "lmtp"
protocol_text milter = codes "milter"
protocol_text policy = codes "policy"
protocol_text auth = codes "dovecot_auth"

-- The bytes of a marshalled value; its error is not looked at, and there are no bytes then.
abbrev bytes_of : Option Bytes → Bytes
bytes_of none = codes ""
bytes_of (some b) = b

module _ (marshal_fields : Dict Value → Option Bytes)
    (marshal_tags : Dict Bytes → Option Bytes) where
  -- The row of an event, without the key that the database draws.
  unfoldable pub row_of : Event → SessionEvent
  unfolding protocol_text
  row_of e = record {
    id = 0;
    ts = e.timestamp;
    session_id = e.session_id;
    protocol = protocol_text e.protocol;
    stage = e.stage;
    remote = e.remote;
    local = e.local;
    duration = e.duration;
    err = e.err;
    fields = bytes_of (marshal_fields e.fields);
    tags = bytes_of (marshal_tags e.tags);
  }

  -- `Write(ctx, e)`, of a sink that is there with its database or not; none for an error.
  unfoldable pub insert_event :
      Bool → Gorm SessionEvent → Event → List SessionEvent → Option (List SessionEvent)
  unfolding row_of
  insert_event present g e t = if not present then some t else g.create (row_of e) t
