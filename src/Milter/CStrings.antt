-- ===== src/Milter/CStrings.antt =====
-- internal/app/service/milter/cstrings.go: NUL-terminated texts.
use mathlib.Core.List.{concat-ne-nil}
use easymail.Base.{◌≡◌, ◌≢◌, refl, ap, ◌∙◌, none, some, List, [], ◌∷◌, ◌++◌, Bytes, All, Lacks}
use easymail.Text.{split, cut, trim, join}
use easymail.Text.Laws.{split-join, cut-none, cut-append}
use easymail.Text.Terminated
use easymail.Text.Terminated.{
  terminated, trim_terminated, terminated-join, join-StartsBare, join-EndsBare, fields-Lacks,
}

-- `DecodeCStrings(data)`.
unfoldable pub decode_cstrings : Bytes → List Bytes
decode_cstrings [] = []
decode_cstrings (c ∷ s) = split 0 (trim 0 (c ∷ s))

-- `ReadCString(data)`.
unfoldable pub read_cstring : Bytes → Bytes
read_cstring s = elim (cut 0 s) [ none ↦ s | some (a, b) ↦ a ]

-- A field of a packet: some text, with no NUL in it.
abbrev pub IsField : Bytes → Type 0
IsField = Terminated.IsField 0

-- Each text with a NUL behind it, as the protocol writes them.
abbrev pub encode_cstrings : List Bytes → Bytes
encode_cstrings = terminated 0

decode-trim : (s : Bytes) → s ≢ [] → decode_cstrings s ≡ split 0 (trim 0 s)
unfolding decode_cstrings
decode-trim [] h = absurd (h refl)
decode-trim (c ∷ s) h = refl

-- Fields that are not empty and hold no NUL are read back from their terminated form.
pub decode-encode : (ps : List Bytes) → All IsField ps → decode_cstrings (encode_cstrings ps) ≡ ps
decode-encode [] h = unfold decode_cstrings in refl
decode-encode (p ∷ ps) h =
    ap decode_cstrings (terminated-join 0 p ps)
    ∙ decode-trim _ (concat-ne-nil 0 (join (0 ∷ []) (p ∷ ps)))
    ∙ ap (split 0) (trim_terminated 0 _ (join-StartsBare 0 p ps h) (join-EndsBare 0 p ps h))
    ∙ split-join 0 p ps (fields-Lacks 0 (p ∷ ps) h)

-- `ReadCString` reads the first field of a packet, whatever follows it, and a text without a NUL
-- whole.
pub read-encode :
    (p rest : Bytes) → Lacks 0 p → (read_cstring (p ++ 0 ∷ rest) ≡ p) × (read_cstring p ≡ p)
unfolding read_cstring
read-encode p rest h = (rw (cut-append 0 p rest h, read_cstring), rw (cut-none 0 p h, read_cstring))
