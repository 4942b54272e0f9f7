-- ===== src/Storage/Reading.antt =====
-- `Read` and `GetAttach` of internal/app/service/storage/local.go. enmime is not part of the
-- repository: a file that it can read is an envelope, with the fields that the code takes from it. The
-- parser of an address is a parameter.
pub mod Laws
use easymail.Base.{
  ℕ, Bool, true, false, ◌&&◌, not, Option, none, some, List, [], ◌∷◌, ◌++◌, map, Bytes, same,
  length, if◌then◌else◌,
}

-- An address as net/mail gives it.
pub record Address : Type 0 where
  pub name : Bytes
  pub address : Bytes

-- A part of an envelope.
pub record Part : Type 0 where
  pub file_name : Bytes
  pub content_type : Bytes
  pub content : Bytes

-- What the code takes from an envelope: `from` is its header From, `to` and `cc` the values of its
-- headers To and Cc.
pub record Envelope : Type 0 where
  pub text : Bytes
  pub html : Bytes
  pub from : Bytes
  pub to : List Bytes
  pub cc : List Bytes
  pub attachments : List Part

-- `Attach`.
pub record Attach : Type 0 where
  pub name : Bytes
  pub content_type : Bytes
  pub size : ℕ

-- `MailContent`.
pub record MailContent : Type 0 where
  pub sender : Address
  pub recipient : List Address
  pub text : Bytes
  pub html : Bytes
  pub attaches : List Attach

-- `AttachBuffer`.
pub record AttachBuffer : Type 0 where
  pub name : Bytes
  pub bytes : Bytes

-- How `Read` ends; a sender that is nil panics.
pub data Reading : Type 0 where
  mail_content : MailContent → Reading
  unreadable panicked : Reading

abbrev pub attach_of : Part → Attach
attach_of p = record { name = p.file_name; content_type = p.content_type; size = length p.content }

abbrev pub buffer_of : Part → AttachBuffer
buffer_of p = record { name = p.file_name; bytes = p.content }

module _ (parse_address : Bytes → Option Address) where
  -- The loops over To and Cc: a value that is no address is passed over.
  unfoldable pub add_recipients : List Bytes → List Address → List Address
  add_recipients [] out = out
  add_recipients (v ∷ vs) out = elim (parse_address v) [
    | none ↦ add_recipients vs out
    | some a ↦ add_recipients vs (out ++ (a ∷ []))
  ]

  -- What `Read` does with its envelope. The error of the sender's address is not looked at.
  read_envelope : Envelope → Reading
  unfolding add_recipients
  read_envelope m =
      let recipient = add_recipients m.to [] in
      elim (parse_address m.from) [
        | none ↦ panicked
        | some a ↦ mail_content (record {
          sender = a;
          recipient = add_recipients m.cc recipient;
          text = m.text;
          html = m.html;
          attaches = map attach_of m.attachments;
        })
      ]

  -- `Read(filename)`, for what the file is read as, if it can be.
  unfoldable pub read : Option Envelope → Reading
  unfolding read_envelope
  read none = unreadable
  read (some m) = read_envelope m

-- The loop of `GetAttach` that looks for a name.
first_named : Bytes → List Part → Option (List AttachBuffer)
first_named name [] = none
first_named name (p ∷ ps) =
    let rest = first_named name ps in
    if same p.file_name name then some (buffer_of p ∷ []) else rest

-- `GetAttach(mailPath, attachName, all)`, for what the file is read as, if it can be.
unfoldable pub get_attach : Option Envelope → Bytes → Bool → Option (List AttachBuffer)
unfolding first_named
get_attach none name every = none
get_attach (some m) name every =
    if every then some (map buffer_of m.attachments) else first_named name m.attachments
