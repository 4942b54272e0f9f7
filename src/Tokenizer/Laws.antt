-- ===== src/Tokenizer/Laws.antt =====
-- What the simple tokenizer keeps of a text.
use easymail.Base.{
  ℕ, ◌≡◌, refl, ap, ap₂, sym, ◌∙◌, Bool, true, false, not, List, [], ◌∷◌, ◌++◌, append_assoc,
  append-nil, arith, ◌==◌, ltb, keep, if◌then◌else◌, is_empty, All, All-append, Bool-cases, inl,
  inr,
}
use easymail.Tokenizer.{
  TokenizerBasic, is_separator, positions, append_piece, cut_pieces, cut_marked, cut_text,
}

-- The tokens behind one another.
abbrev pub flatten : List (List ℕ) → List ℕ
flatten [] = []
flatten (p ∷ ps) = p ++ flatten ps

flatten-append : (xs ys : List (List ℕ)) → flatten (xs ++ ys) ≡ flatten xs ++ flatten ys
flatten-append [] ys = refl
flatten-append (x ∷ xs) ys =
    ap (λ r. x ++ r) (flatten-append xs ys) ∙ sym (append_assoc x (flatten xs) (flatten ys))

keep-append : (p : ℕ → Bool) (xs ys : List ℕ) → keep p (xs ++ ys) ≡ keep p xs ++ keep p ys
keep-append p [] ys = refl
keep-append p (x ∷ xs) ys = ground (arith, keep-append p xs ys)

module _ (t : TokenizerBasic) where
  -- The runes that are no separators.
  abbrev pub plain : List ℕ → List ℕ
  plain = keep (λ r. not (is_separator t r))

  -- Every separator is marked.
  abbrev Marked : List (ℕ × Bool) → Type 0
  Marked [] = Unit
  Marked ((r, m) ∷ src) = (is_separator t r ≡ true → m ≡ true) × Marked src

  abbrev runes : List (ℕ × Bool) → List ℕ
  runes [] = []
  runes ((r, m) ∷ src) = r ∷ runes src

  -- Only the first rune of a piece may be a separator.
  abbrev IsPiece : List ℕ → Type 0
  IsPiece [] = ⊥
  IsPiece (r ∷ piece) = plain piece ≡ piece

  positions-Marked : (multi : Bool) (src : List ℕ) → Marked (positions t multi src)
  unfolding positions
  positions-Marked multi [] = tt
  positions-Marked multi (r ∷ src) = ((λ e. ground (arith, e)), positions-Marked (ltb 255 r) src)

  runes-positions : (multi : Bool) (src : List ℕ) → runes (positions t multi src) ≡ src
  unfolding positions
  runes-positions multi [] = refl
  runes-positions multi (r ∷ src) = ap (λ s. r ∷ s) (runes-positions (ltb 255 r) src)

  flatten_one :
      (b : Bool) (r : ℕ) (piece : List ℕ)
      → plain piece ≡ piece
      → flatten (if b then (if is_empty piece then [] else piece ∷ []) else (r ∷ piece) ∷ [])
        ≡ (if not b then r ∷ plain piece else plain piece)
  flatten_one true r [] h = refl
  flatten_one true r (x ∷ piece) h = append-nil (x ∷ piece) ∙ sym h
  flatten_one false r piece h = ap (λ s. r ∷ s) (append-nil piece ∙ sym h)

  flatten-append_piece :
      (piece : List ℕ) → IsPiece piece → flatten (append_piece t piece) ≡ plain piece
  unfolding append_piece
  flatten-append_piece [] h = absurd h
  flatten-append_piece (r ∷ piece) h = flatten_one (is_separator t r) r piece h

  grow-IsPiece :
      (piece : List ℕ) (r : ℕ)
      → IsPiece piece
      → is_separator t r ≡ false
      → IsPiece (piece ++ (r ∷ []))
  grow-IsPiece [] r h e = absurd h
  grow-IsPiece (x ∷ piece) r h e =
      keep-append (λ c. not (is_separator t c)) piece (r ∷ [])
      ∙ ap₂ (λ a b. a ++ b) h (ap (λ b. if not b then r ∷ [] else []) e)

  unmarked : (r : ℕ) → (is_separator t r ≡ true → false ≡ true) → is_separator t r ≡ false
  unmarked r h = elim (Bool-cases (is_separator t r)) [ inl e ↦ absurd (cc (h e)) | inr e ↦ e ]

  flatten-cut_pieces :
      (piece : List ℕ) (src : List (ℕ × Bool))
      → IsPiece piece
      → Marked src
      → flatten (cut_pieces t piece src) ≡ plain (piece ++ runes src)
  unfolding cut_pieces
  flatten-cut_pieces piece [] h m = flatten-append_piece piece h ∙ ap plain (sym (append-nil piece))
  flatten-cut_pieces piece ((r, true) ∷ src) h m =
      flatten-append (append_piece t piece) (cut_pieces t (r ∷ []) src)
      ∙ ap₂ (λ a b. a ++ b) (flatten-append_piece piece h)
          (flatten-cut_pieces (r ∷ []) src refl (m.1))
      ∙ sym (keep-append (λ c. not (is_separator t c)) piece (r ∷ runes src))
  flatten-cut_pieces piece ((r, false) ∷ src) h m =
      flatten-cut_pieces (piece ++ (r ∷ [])) src (grow-IsPiece piece r h (unmarked r (m.0))) (m.1)
      ∙ ap plain (append_assoc piece (r ∷ []) (runes src))

  -- A token is not empty and has no separator in it.
  abbrev pub IsToken : List ℕ → Type 0
  IsToken [] = ⊥
  IsToken (r ∷ piece) = plain (r ∷ piece) ≡ r ∷ piece

  IsToken-one :
      (b : Bool) (r : ℕ) (piece : List ℕ)
      → is_separator t r ≡ b
      → plain piece ≡ piece
      → All IsToken (if b then (if is_empty piece then [] else piece ∷ []) else (r ∷ piece) ∷ [])
  IsToken-one true r [] e h = tt
  IsToken-one true r (x ∷ piece) e h = (h, tt)
  IsToken-one false r piece e h = (ground (arith, e, h), tt)

  append_piece-IsToken : (piece : List ℕ) → IsPiece piece → All IsToken (append_piece t piece)
  unfolding append_piece
  append_piece-IsToken [] h = absurd h
  append_piece-IsToken (r ∷ piece) h = IsToken-one (is_separator t r) r piece refl h

  cut_pieces-IsToken :
      (piece : List ℕ) (src : List (ℕ × Bool))
      → IsPiece piece
      → Marked src
      → All IsToken (cut_pieces t piece src)
  unfolding cut_pieces
  cut_pieces-IsToken piece [] h m = append_piece-IsToken piece h
  cut_pieces-IsToken piece ((r, true) ∷ src) h m =
      All-append IsToken (append_piece t piece) (cut_pieces t (r ∷ []) src)
        (append_piece-IsToken piece h) (cut_pieces-IsToken (r ∷ []) src refl (m.1))
  cut_pieces-IsToken piece ((r, false) ∷ src) h m =
      cut_pieces-IsToken (piece ++ (r ∷ [])) src (grow-IsPiece piece r h (unmarked r (m.0))) (m.1)

  cut_marked_whole :
      (src : List (ℕ × Bool))
      → Marked src
      → All IsToken (cut_marked t src) × (flatten (cut_marked t src) ≡ plain (runes src))
  unfolding cut_marked
  cut_marked_whole [] m = (tt, refl)
  cut_marked_whole ((r, b) ∷ src) m =
      (cut_pieces-IsToken (r ∷ []) src refl (m.1), flatten-cut_pieces (r ∷ []) src refl (m.1))

  -- The tokens of a text, behind one another, are the text without its byte order marks and its
  -- separators: `Cut` loses nothing else and doubles nothing. No token is empty, and none has a
  -- separator in it.
  pub cut_text_whole :
      (text : List ℕ)
      → All IsToken (cut_text t text)
        × (flatten (cut_text t text) ≡ plain (keep (λ r. not (r == 65279)) text))
  unfolding cut_text
  cut_text_whole text =
      let src = keep (λ r. not (r == 65279)) text in
      let (tokens, whole) = cut_marked_whole (positions t false src) (positions-Marked false src) in
      (tokens, whole ∙ ap plain (runes-positions false src))
