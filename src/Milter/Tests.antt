-- ===== src/Milter/Tests.antt =====
-- Packets and texts of the milter protocol at concrete inputs.
use easymail.Base.{◌≡◌, refl, [], ◌∷◌, codes, arith}
use easymail.Base.Int.{negsuc}
use easymail.Text.{split, trim}
use easymail.Milter.Codes.{Message, add_header, change_header, insert_header, modify_byte}
use easymail.Milter.CStrings.{decode_cstrings, encode_cstrings, IsField}
use easymail.Milter.Modifier.{
  crlf_to_lf, to_u32, Carries, replace_header, place_header, append_header, header_packets,
}

-- Trailing NULs are trimmed, so an empty last text is lost.
empty_last_lost : decode_cstrings (encode_cstrings (codes "a" ∷ [] ∷ [])) ≡ codes "a" ∷ []
unfolding decode_cstrings split trim
empty_last_lost = refl

-- One pass can leave a CR LF behind.
double_cr : crlf_to_lf (codes "a\r\r\n\n") ≡ codes "a\r\n\n"
unfolding crlf_to_lf
double_cr = refl

minus_one : to_u32 (negsuc 0) ≡ 4294967295
unfolding to_u32
minus_one = refl

name-IsField : IsField (codes "Subject")
name-IsField = (ground arith, omega arith)

text-IsField : IsField (codes "a\r\nb")
text-IsField = (ground arith, omega arith)

header_packets_example :
    ((m : Message) × (replace_header (λ m. m) (negsuc 0) (codes "Subject") (codes "a\r\nb") ≡ m)
      × Carries change_header (negsuc 0) (codes "Subject") (codes "a\r\nb") m)
    × ((m : Message) × (place_header (λ m. m) (negsuc 0) (codes "Subject") (codes "a\r\nb") ≡ m)
        × Carries insert_header (negsuc 0) (codes "Subject") (codes "a\r\nb") m)
    × ((m : Message) × (append_header (λ m. m) (codes "Subject") (codes "a\r\nb") ≡ m)
        × (m.code ≡ modify_byte add_header)
        × (decode_cstrings m.payload ≡ codes "Subject" ∷ crlf_to_lf (codes "a\r\nb") ∷ []))
header_packets_example =
    header_packets (λ m. m) (negsuc 0) (codes "Subject") (codes "a\r\nb") name-IsField text-IsField
