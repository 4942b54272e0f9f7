-- ===== src/Tokenizer/Chain.antt =====
-- internal/pkg/utils/preprocessing/tokenizerChain.go: words of letters, and chains of wide runes. A
-- text is the list of its runes, where a byte that is no UTF-8 is the rune 65533. The stop words are a
-- test, and `len` counts the bytes of UTF-8.
pub mod Laws
pub mod Words
use easymail.Base.{
  ℕ, ◌+◌, Bool, true, false, ◌&&◌, ◌||◌, not, List, [], ◌∷◌, ◌++◌, map, Bytes, ◌==◌, ltb, leb, keep,
  if◌then◌else◌,
}
use easymail.Text.{split, trim_right}

-- The runes that the multi-byte part keeps.
unfoldable pub wide : List ℕ → List ℕ
wide = keep (ltb 255)

-- The loop of the unitary tokens; `124` is `|`.
write_single : List ℕ → List ℕ
write_single [] = []
write_single (a ∷ s) = a ∷ 124 ∷ write_single s

-- The loop of the binary tokens.
write_double : List ℕ → List ℕ
write_double (a ∷ b ∷ s) = a ∷ b ∷ 124 ∷ write_double (b ∷ s)
write_double _ = []

-- The loop of the ternary tokens.
write_triple : List ℕ → List ℕ
write_triple (a ∷ b ∷ c ∷ s) = a ∷ b ∷ c ∷ 124 ∷ write_triple (b ∷ c ∷ s)
write_triple _ = []

-- The loop of the chained tokens.
write_chain : List ℕ → List ℕ
write_chain (a ∷ b ∷ c ∷ s) = a ∷ b'*' ∷ c ∷ 124 ∷ write_chain (b ∷ c ∷ s)
write_chain _ = []

-- What the buffer holds behind the loops.
multibyte_buffer : Bool → Bool → Bool → Bool → List ℕ → List ℕ
unfolding write_single write_double write_triple write_chain
multibyte_buffer unitary binary ternary chain s =
    (if unitary then write_single s else [])
    ++ ((if binary then write_double s else [])
        ++ (if ternary then write_triple s ++ (if chain then write_chain s else []) else []))

-- `getMultibyte(src, unitary, binary, ternary, chain)`.
unfoldable pub get_multibyte : List ℕ → Bool → Bool → Bool → Bool → List (List ℕ)
unfolding multibyte_buffer wide split trim_right
get_multibyte src unitary binary ternary chain =
    split 124 (trim_right 124 (multibyte_buffer unitary binary ternary chain (wide src)))

-- `unicode.IsLetter` below 255.
unfoldable pub is_letter : ℕ → Bool
is_letter c =
    leb 65 c && leb c 90
    || (leb 97 c && leb c 122
        || (c == 170
            || (c == 181
                || (c == 186
                    || (leb 192 c && leb c 214
                        || (leb 216 c && leb c 246 || leb 248 c && leb c 254))))))

-- The rune that the loop of `TokenizeAscii` writes for a rune.
unfoldable pub mark : ℕ → ℕ
unfolding is_letter
mark c =
    if c == 13 || (c == 10 || c == 65279)
    then 124
    else if leb 255 c || not (is_letter c)
    then 124
    else if ltb 64 c && ltb c 91
    then c + 32
    else c

-- `tl`, the list that the loop's text is split into.
unfoldable pub letter_runs : List ℕ → List (List ℕ)
unfolding mark split trim_right
letter_runs src = split 124 (trim_right 124 (map mark src))

-- The bytes of a rune.
abbrev pub rune_length : ℕ → ℕ
rune_length c = if ltb c 128 then 1 else if ltb c 2048 then 2 else if ltb c 65536 then 3 else 4

-- `len(token)`.
unfoldable pub byte_length : List ℕ → ℕ
byte_length [] = 0
byte_length (c ∷ s) = rune_length c + byte_length s

-- `strings.ToLower` on the runes below 256 that are letters.
unfoldable pub lower_rune : ℕ → ℕ
lower_rune c =
    if leb 65 c && leb c 90 || (leb 192 c && leb c 222 && not (c == 215)) then c + 32 else c

module _ (is_stop_word : List ℕ → Bool) where
  -- The words of the unitary tokens.
  single_words : List (List ℕ) → List (List ℕ)
  unfolding byte_length lower_rune
  single_words [] = []
  single_words (w ∷ ws) =
      let rest = single_words ws in
      let lowered = map lower_rune w in
      if ltb (byte_length w) 2 || ltb 16 (byte_length w)
      then rest
      else if is_stop_word lowered
      then rest
      else lowered ∷ rest

  -- `len(tl[i]) > 1`.
  abbrev long : List ℕ → Bool
  long w = ltb 1 (byte_length w)

  double_words : List (List ℕ) → List (List ℕ)
  unfolding byte_length
  double_words (a ∷ b ∷ ws) =
      let rest = double_words (b ∷ ws) in if long a && long b then (a ++ (32 ∷ b)) ∷ rest else rest
  double_words _ = []

  triple_words : List (List ℕ) → List (List ℕ)
  unfolding byte_length
  triple_words (a ∷ b ∷ c ∷ ws) =
      let rest = triple_words (b ∷ c ∷ ws) in
      if long a && (long b && long c) then (a ++ (32 ∷ (b ++ (32 ∷ c)))) ∷ rest else rest
  triple_words _ = []

  -- The third word is not tested.
  fuzzy_words : List (List ℕ) → List (List ℕ)
  unfolding byte_length
  fuzzy_words (a ∷ b ∷ c ∷ ws) =
      let rest = fuzzy_words (b ∷ c ∷ ws) in
      if long a && long b then (a ++ (32 ∷ b'*' ∷ 32 ∷ c)) ∷ rest else rest
  fuzzy_words _ = []

  -- `TokenizeAscii(b, unitary, binary, ternary, fuzzy)`.
  unfoldable pub tokenize_ascii : List ℕ → Bool → Bool → Bool → Bool → List (List ℕ)
  unfolding letter_runs single_words double_words triple_words fuzzy_words
  tokenize_ascii src unitary binary ternary fuzzy =
      let tl = letter_runs src in
      (if unitary then single_words tl else [])
      ++ ((if binary then double_words tl else [])
          ++ (if ternary then triple_words tl ++ (if fuzzy then fuzzy_words tl else []) else []))

  -- `TokenizerChain.Cut(text, ...)`.
  unfoldable pub cut_chain : List ℕ → Bool → Bool → Bool → Bool → List (List ℕ)
  unfolding tokenize_ascii get_multibyte byte_length
  cut_chain src unitary binary ternary fuzzy =
      keep (λ w. ltb 1 (byte_length w)) (tokenize_ascii src unitary binary ternary fuzzy)
      ++ keep (λ w. leb 1 (byte_length w) && not (is_stop_word w))
          (get_multibyte src unitary binary ternary fuzzy)
