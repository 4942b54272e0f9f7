-- ===== src/Milter/Modifier.antt =====
-- internal/app/service/milter/modifier.go: the packets by which a filter changes a message.
use easymail.Base.{
  ℕ, ◌+◌, ◌*◌, ◌-◌, ◌/◌, ◌%◌, ◌^◌, ◌<◌, ◌≡◌, ◌≢◌, refl, ap, ◌∙◌, ◌&&◌, [], ◌∷◌, ◌++◌, arith, Bytes,
  ◌==◌, drop, if◌then◌else◌, Lacks, All-append, append_assoc, sym, Bool-cases, inl, inr,
}
use easymail.Base.Int.{ℤ, pos, negsuc}
use easymail.Text.{replace_pair}
use easymail.Milter.Codes.{
  Message, ModifyActCode, add_rcpt, del_rcpt, repl_body, add_header, change_header, insert_header,
  quarantine, change_from, modify_byte,
}
use easymail.Milter.Response.{message, new_response}
use easymail.Milter.CStrings.{decode_cstrings, read_cstring, decode-encode, read-encode, IsField}

-- `crlfToLF(b)`.
unfoldable pub crlf_to_lf : Bytes → Bytes
unfolding replace_pair
crlf_to_lf b = replace_pair 13 10 (10 ∷ []) b

-- `uint32(index)`.
unfoldable pub to_u32 : ℤ → ℕ
to_u32 (pos n) = n % 2 ^ 32
to_u32 (negsuc n) = 2 ^ 32 - 1 - n % 2 ^ 32

-- `binary.Write(&buffer, binary.BigEndian, v)`, which cannot fail on a `bytes.Buffer`.
unfoldable pub big_endian : ℕ → Bytes
big_endian v = v / 2 ^ 24 ∷ v / 2 ^ 16 % 256 ∷ v / 2 ^ 8 % 256 ∷ v % 256 ∷ []

-- A header's name and value behind `front`, each with a NUL behind it.
header_payload : Bytes → Bytes → Bytes → Bytes
unfolding crlf_to_lf
header_payload front name value = front ++ (name ++ 0 ∷ (crlf_to_lf value ++ 0 ∷ []))

-- The packet of a change, as it is handed to `WritePacket`.
packet : ModifyActCode → Bytes → Message
unfolding modify_byte message
packet code payload = message (new_response (modify_byte code) payload)

-- `WritePacket`, a field of the modifier, is the parameter; its result is the method's.
module _ {E : Type 0} (write_packet : Message → E) where
  -- `AddRecipient(r)`.
  unfoldable pub add_recipient : Bytes → E
  unfolding packet
  add_recipient r = write_packet (packet add_rcpt (b'<' ∷ (r ++ b'>' ∷ 0 ∷ [])))

  -- `DeleteRecipient(r)`.
  unfoldable pub delete_recipient : Bytes → E
  unfolding packet
  delete_recipient r = write_packet (packet del_rcpt (b'<' ∷ (r ++ b'>' ∷ 0 ∷ [])))

  -- `ReplaceBody(body)`.
  unfoldable pub replace_body : Bytes → E
  unfolding packet crlf_to_lf
  replace_body body = write_packet (packet repl_body (crlf_to_lf body))

  -- `AddHeader(name, value)`.
  unfoldable pub append_header : Bytes → Bytes → E
  unfolding packet header_payload
  append_header name value = write_packet (packet add_header (header_payload [] name value))

  -- `Quarantine(reason)`.
  unfoldable pub hold : Bytes → E
  unfolding packet
  hold reason = write_packet (packet quarantine (reason ++ 0 ∷ []))

  -- `ChangeHeader(index, name, value)`.
  unfoldable pub replace_header : ℤ → Bytes → Bytes → E
  unfolding packet header_payload to_u32 big_endian
  replace_header index name value =
      write_packet (packet change_header (header_payload (big_endian (to_u32 index)) name value))

  -- `InsertHeader(index, name, value)`.
  unfoldable pub place_header : ℤ → Bytes → Bytes → E
  unfolding packet header_payload to_u32 big_endian
  place_header index name value =
      write_packet (packet insert_header (header_payload (big_endian (to_u32 index)) name value))

  -- `ChangeFrom(value)`.
  unfoldable pub replace_from : Bytes → E
  unfolding packet
  replace_from value = write_packet (packet change_from (value ++ 0 ∷ []))

-- A text with every line feed written as CR LF.
abbrev pub to_crlf : Bytes → Bytes
to_crlf [] = []
to_crlf (c ∷ s) = if c == 10 then 13 ∷ 10 ∷ to_crlf s else c ∷ to_crlf s

crlf_keeps : (c : ℕ) (s : Bytes) → c ≢ 13 → crlf_to_lf (c ∷ s) ≡ c ∷ crlf_to_lf s
unfolding crlf_to_lf
crlf_keeps c [] h = refl
crlf_keeps c (d ∷ s) h = ground arith

crlf_joins : (s : Bytes) → crlf_to_lf (13 ∷ 10 ∷ s) ≡ 10 ∷ crlf_to_lf s
unfolding crlf_to_lf
crlf_joins s = refl

-- A text without CR comes back from its form with CR LF lines, and is left alone itself.
pub crlf_to_lf_round : (s : Bytes) → Lacks 13 s → (crlf_to_lf (to_crlf s) ≡ s) × (crlf_to_lf s ≡ s)
crlf_to_lf_round [] h = unfold crlf_to_lf in (refl, refl)
crlf_to_lf_round (c ∷ s) h = ground (
  arith,
  crlf_to_lf_round s h.1,
  crlf_keeps c (to_crlf s) h.0,
  crlf_keeps c s h.0,
  crlf_joins (to_crlf s),
)

-- The number that four big-endian bytes stand for.
abbrev pub value : Bytes → ℕ
value (a ∷ b ∷ c ∷ d ∷ _) = ((a * 256 + b) * 256 + c) * 256 + d
value _ = 0

value_of_index : (v : ℕ) (rest : Bytes) → v < 2 ^ 32 → value (big_endian v ++ rest) ≡ v
unfolding big_endian
value_of_index v rest h = omega arith

to_u32_bound : (i : ℤ) → to_u32 i < 2 ^ 32
unfolding to_u32
to_u32_bound (pos n) = omega arith
to_u32_bound (negsuc n) = omega arith

crlf-Lacks : (b : Bytes) → Lacks 0 b → Lacks 0 (crlf_to_lf b)
unfolding crlf_to_lf
crlf-Lacks [] h = tt
crlf-Lacks (c ∷ []) h = h
crlf-Lacks (c ∷ d ∷ s) h = elim (Bool-cases (c == 13 && d == 10)) [
  | inl e ↦ rw (e, replace_pair) (omega arith, crlf-Lacks s h.1.1)
  | inr e ↦ rw (e, replace_pair) (h.0, crlf-Lacks (d ∷ s) h.1)
]

crlf-ne-nil : (b : Bytes) → b ≢ [] → crlf_to_lf b ≢ []
unfolding crlf_to_lf
crlf-ne-nil [] h = absurd (h refl)
crlf-ne-nil (c ∷ []) h = h
crlf-ne-nil (c ∷ d ∷ s) h = ground arith

crlf-IsField : (b : Bytes) → IsField b → IsField (crlf_to_lf b)
crlf-IsField b h = (crlf-ne-nil b h.0, crlf-Lacks b h.1)

-- What the MTA reads from a packet that changes a header.
abbrev pub Carries : ModifyActCode → ℤ → Bytes → Bytes → Message → Type 0
Carries act index name text m =
    (m.code ≡ modify_byte act)
    × (value m.payload ≡ to_u32 index)
    × (decode_cstrings (drop 4 m.payload) ≡ name ∷ crlf_to_lf text ∷ [])

header_fields :
    (name text : Bytes)
    → IsField name
    → IsField text
    → decode_cstrings (header_payload [] name text) ≡ name ∷ crlf_to_lf text ∷ []
unfolding header_payload
header_fields name text h k =
    decode-encode (name ∷ crlf_to_lf text ∷ []) (h, (crlf-IsField text k, tt))

packet-Carries :
    (act : ModifyActCode) (index : ℤ) (name text : Bytes)
    → IsField name
    → IsField text
    → Carries act index name text
        (packet act (header_payload (big_endian (to_u32 index)) name text))
unfolding packet header_payload
packet-Carries act index name text h k = (
  refl,
  value_of_index (to_u32 index) _ (to_u32_bound index),
  unfold big_endian in header_fields name text h k,
)

-- For a header name and a value that are not empty and hold no NUL, `ChangeHeader` and
-- `InsertHeader` write one packet each, of their own code, from which the MTA reads the index as a
-- 32-bit number, the name, and the value with CR LF turned into LF; `AddHeader` writes the same
-- name and value without an index.
pub header_packets :
    {E : Type 0} (write_packet : Message → E) (index : ℤ) (name text : Bytes)
    → IsField name
    → IsField text
    → ((m : Message) × (replace_header write_packet index name text ≡ write_packet m)
        × Carries change_header index name text m)
      × ((m : Message) × (place_header write_packet index name text ≡ write_packet m)
          × Carries insert_header index name text m)
      × ((m : Message) × (append_header write_packet name text ≡ write_packet m)
          × (m.code ≡ modify_byte add_header)
          × (decode_cstrings m.payload ≡ name ∷ crlf_to_lf text ∷ []))
unfolding replace_header place_header append_header
header_packets write_packet index name text h k = (
  (
    packet change_header (header_payload (big_endian (to_u32 index)) name text),
    refl,
    packet-Carries change_header index name text h k,
  ),
  (
    packet insert_header (header_payload (big_endian (to_u32 index)) name text),
    refl,
    packet-Carries insert_header index name text h k,
  ),
  (packet add_header (header_payload [] name text), refl, refl, header_fields name text h k),
)

terminated : (a : Bytes) → Lacks 0 a → read_cstring (a ++ 0 ∷ []) ≡ a
terminated a h = (read-encode a [] h).0

-- For a text without NUL, the packets of `AddRecipient` and `DeleteRecipient` carry the address in
-- angle brackets, and those of `Quarantine` and `ChangeFrom` the text itself, each under its code.
pub envelope_packets :
    (r : Bytes)
    → Lacks 0 r
    → (read_cstring (add_recipient (λ m. m) r).payload ≡ b'<' ∷ (r ++ b'>' ∷ []))
      × ((add_recipient (λ m. m) r).code ≡ modify_byte add_rcpt)
      × (read_cstring (delete_recipient (λ m. m) r).payload ≡ b'<' ∷ (r ++ b'>' ∷ []))
      × ((delete_recipient (λ m. m) r).code ≡ modify_byte del_rcpt)
      × (read_cstring (hold (λ m. m) r).payload ≡ r)
      × ((hold (λ m. m) r).code ≡ modify_byte quarantine)
      × (read_cstring (replace_from (λ m. m) r).payload ≡ r)
      × ((replace_from (λ m. m) r).code ≡ modify_byte change_from)
unfolding add_recipient delete_recipient hold replace_from
envelope_packets r h =
    (bracketed, refl, bracketed, refl, terminated r h, refl, terminated r h, refl)
  where
    bracketed : read_cstring (b'<' ∷ (r ++ b'>' ∷ 0 ∷ [])) ≡ b'<' ∷ (r ++ b'>' ∷ [])
    bracketed =
        ap (λ t. read_cstring (b'<' ∷ t)) (sym (append_assoc r (b'>' ∷ []) (0 ∷ [])))
        ∙ terminated (b'<' ∷ (r ++ b'>' ∷ []))
            (omega arith, All-append (λ c. c ≢ 0) r (b'>' ∷ []) h (omega arith, tt))
