-- ===== src/Storage/Reading/Laws.antt =====
-- `GetAttach` against the list of the attachments with a name.
use easymail.Base.{
  ◌≡◌, refl, Bool-cases, inl, inr, keep, true, false, none, some, List, [], ◌∷◌, map, Bytes, same,
}
use easymail.Storage.Reading.{Part, Envelope, AttachBuffer, buffer_of, first_named, get_attach}

-- The buffers of the parts with a name.
abbrev pub named : Bytes → List Part → List AttachBuffer
named name ps = map buffer_of (keep (λ p. same p.file_name name) ps)

first_named-named :
    (name : Bytes) (ps : List Part)
    → first_named name ps ≡ elim (named name ps) [ [] ↦ none | x ∷ _ ↦ some (x ∷ []) ]
unfolding first_named
first_named-named name [] = refl
first_named-named name (p ∷ ps) = elim (Bool-cases (same p.file_name name)) [
  | inl e ↦ rw e refl
  | inr e ↦ rw e (first_named-named name ps)
]

-- A file that can be read: asked for all, `GetAttach` returns every attachment, in order, and asked
-- for a name, the first attachment of that name alone, or an error if there is none.
pub get_attach-named :
    (m : Envelope) (name : Bytes)
    → (get_attach (some m) name true ≡ some (map buffer_of m.attachments))
      × (get_attach (some m) name false
          ≡ elim (named name m.attachments) [ [] ↦ none | x ∷ _ ↦ some (x ∷ []) ])
unfolding get_attach
get_attach-named m name = (refl, first_named-named name m.attachments)
