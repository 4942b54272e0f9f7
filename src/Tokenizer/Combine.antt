-- ===== src/Tokenizer/Combine.antt =====
-- internal/pkg/utils/preprocessing/tokenizerDefault.go: runs of the segmenter's tokens. The segmenter
-- is not part of the repository: `segment` is its cut of a text. Texts are lists of runes.
pub mod Laws
use easymail.Base.{
  ℕ, zero, suc, ◌+◌, ◌%◌, Bool, true, false, ◌&&◌, ◌||◌, not, Option, none, some, List, [], ◌∷◌,
  ◌++◌, codes, ◌==◌, ltb, leb, keep, if◌then◌else◌,
}
use easymail.Text.{split_on, cut_on}
use mathlib.Core.List.{reverse}

-- The inner loop of `CombineToken`: `n` rounds are left, `j` are done, `src` starts at `src[i+j]`.
unfoldable pub combine_run : ℕ → Bool → Bool → ℕ → ℕ → List (List ℕ) → List ℕ
combine_run step spacer chain zero j src = []
combine_run step spacer chain (suc n) j [] = []
combine_run step spacer chain (suc n) j (w ∷ src) =
    let rest = combine_run step spacer chain n (j + 1) src in
    (if ltb 2 step && (chain && (not (j == 0) && not (j + 1 == step))) then b'*' ∷ [] else w)
    ++ ((if spacer && not ((j + 1) % step == 0) then 32 ∷ [] else []) ++ rest)

-- The outer loop, over the tokens from `src[i]` on.
combine_buffer : ℕ → Bool → Bool → List (List ℕ) → List ℕ
unfolding combine_run
combine_buffer step spacer chain (a ∷ b ∷ []) = combine_run step spacer chain step 0 (a ∷ b ∷ [])
combine_buffer step spacer chain (a ∷ b ∷ c ∷ src) =
    combine_run step spacer chain step 0 (a ∷ b ∷ c ∷ src)
    ++ (b'&' ∷ b'&' ∷ combine_buffer step spacer chain (b ∷ c ∷ src))
combine_buffer step spacer chain _ = []

-- `CombineToken(src, step, addSpacer, chain)`.
unfoldable pub combine_token : List (List ℕ) → ℕ → Bool → Bool → List (List ℕ)
unfolding combine_buffer split_on
combine_token src step spacer chain =
    split_on (b'&' ∷ b'&' ∷ []) (combine_buffer step spacer chain src)

-- `unicode.IsSpace`.
abbrev is_space : ℕ → Bool
is_space c =
    leb 9 c && leb c 13
    || (c == 32
        || (c == 133
            || (c == 160
                || (c == 5760
                    || (leb 8192 c && leb c 8202
                        || (c == 8232
                            || (c == 8233 || (c == 8239 || (c == 8287 || c == 12288)))))))))

drop_space : List ℕ → List ℕ
drop_space [] = []
drop_space (c ∷ s) = let rest = drop_space s in if is_space c then rest else c ∷ s

-- `strings.TrimSpace(s)`, without its line ends.
unfoldable pub clean_token : List ℕ → List ℕ
unfolding drop_space
clean_token s = keep (λ c. not (c == 10 || c == 13)) (reverse (drop_space (reverse (drop_space s))))

-- `len(r) < 1`, and the test of the first rune.
starts_word : List ℕ → Bool
starts_word [] = false
starts_word (c ∷ s) = not (ltb c 255 && not (leb 65 c && leb c 90 || leb 97 c && leb c 122))

-- `strings.Contains(s, c)` for some excluded text.
excluded : List (List ℕ) → List ℕ → Bool
unfolding cut_on
excluded [] s = false
excluded (c ∷ cs) s = let rest = excluded cs s in elim (cut_on c s) [ none ↦ rest | some p ↦ true ]

-- `TokenizerDefault`, without its segmenter: the excluded texts, and the test for a stop word.
pub record TokenizerDefault : Type 0 where
  pub exclude_chars : List (List ℕ)
  pub is_stop_word : List ℕ → Bool

-- `data`, the segmenter's tokens that are kept.
kept_tokens : TokenizerDefault → List (List ℕ) → List (List ℕ)
unfolding clean_token starts_word excluded
kept_tokens t [] = []
kept_tokens t (w ∷ ws) =
    let rest = kept_tokens t ws in
    let s = clean_token w in
    if not (starts_word s) then rest else if excluded t.exclude_chars s then rest else s ∷ rest

-- `TokenizerDefault.Cut(text, ...)`.
unfoldable pub cut_default :
    (List ℕ → List (List ℕ)) → TokenizerDefault → List ℕ → Bool → Bool → Bool → Bool → List (List ℕ)
unfolding kept_tokens combine_token
cut_default segment t text unitary binary ternary fuzzy =
    let ws = kept_tokens t (segment (keep (λ r. not (r == 65279)) text)) in
    let wanted = keep (λ w. not (t.is_stop_word w)) in
    (if binary then wanted (combine_token ws 2 true fuzzy) else [])
    ++ ((if ternary then wanted (combine_token ws 3 true fuzzy) else [])
        ++ (if unitary then wanted ws else []))
