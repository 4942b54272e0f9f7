-- ===== src/Tokenizer.antt =====
-- internal/pkg/utils/preprocessing/tokenizerBasic.go and mailbox.go: the simple tokenizer, on the
-- runes of a text, and the domain of an address. `New` has the constructors of the tokenizers. `Chain` is the tokenizer of words and of chains of
-- wide runes, and `Combine` the one over a segmenter.
pub mod New
pub mod Laws
pub mod Chain
pub mod Combine
pub mod Tests
use easymail.Base.{
  ℕ, Bool, true, false, ◌||◌, not, List, [], ◌∷◌, ◌++◌, Bytes, ◌==◌, ltb, keep, if◌then◌else◌,
  is_empty,
}
use easymail.Text.{split_two}

-- `GetDomain(email)`.
second_part : List Bytes → Bytes
second_part (a ∷ b ∷ []) = b
second_part _ = []

unfoldable pub get_domain : Bytes → Bytes
unfolding second_part split_two
get_domain email = second_part (split_two b'@' email)

-- `TokenizerBasic`, by its separators: `_, ok := t.separator[r]`.
pub record TokenizerBasic : Type 0 where
  pub separator : List ℕ

abbrev pub among : ℕ → List ℕ → Bool
among r [] = false
among r (s ∷ ss) = s == r || among r ss

abbrev pub is_separator : TokenizerBasic → ℕ → Bool
is_separator t r = among r t.separator

-- The first loop of `Cut`: each rune with its `positions[i]`, given `isMultiCharacter`.
positions : TokenizerBasic → Bool → List ℕ → List (ℕ × Bool)
positions t multi [] = []
positions t multi (r ∷ src) =
    let wide = ltb 255 r in
    let rest = positions t wide src in (r, (is_separator t r || wide || multi)) ∷ rest

-- The piece `src[lastPosition:i]` as it is appended: without its first rune when that is a separator,
-- and not at all when nothing else is in it.
append_piece : TokenizerBasic → List ℕ → List (List ℕ)
append_piece t [] = []
append_piece t (r ∷ piece) =
    if is_separator t r then (if is_empty piece then [] else piece ∷ []) else (r ∷ piece) ∷ []

-- The second loop, with the piece since `lastPosition`, and what follows it.
cut_pieces : TokenizerBasic → List ℕ → List (ℕ × Bool) → List (List ℕ)
unfolding append_piece
cut_pieces t piece [] = append_piece t piece
cut_pieces t piece ((r, marked) ∷ src) =
    let on = cut_pieces t (piece ++ r ∷ []) src in
    let next = cut_pieces t (r ∷ []) src in if marked then append_piece t piece ++ next else on

-- The second loop skips the first position.
cut_marked : TokenizerBasic → List (ℕ × Bool) → List (List ℕ)
unfolding cut_pieces
cut_marked t [] = []
cut_marked t ((r, marked) ∷ src) = cut_pieces t (r ∷ []) src

-- `Cut(text, ...)`, whose flags are not used; 65279 is the byte order mark.
unfoldable pub cut_text : TokenizerBasic → List ℕ → List (List ℕ)
unfolding cut_marked positions
cut_text t text = cut_marked t (positions t false (keep (λ r. not (r == 65279)) text))
