-- ===== src/Tokenizer/Combine/Laws.antt =====
-- `CombineToken` against the list of its runs.
use easymail.Base.{
  ℕ, zero, suc, ◌+◌, ◌%◌, ◌≡◌, ◌≢◌, refl, ap, ap₂, ◌∙◌, Bool, true, false, ◌&&◌, not, List, [], ◌∷◌,
  ◌++◌, append-nil, arith, ◌==◌, ltb, if◌then◌else◌, All, All-append, Lacks,
}
use easymail.Text.{split_on, split_from}
use easymail.Tokenizer.Combine.{combine_run, combine_buffer, combine_token}

abbrev bars : List ℕ
bars = b'&' ∷ b'&' ∷ []

-- The first part of a split is the text up to the separator.
split_bars :
    (p s : List ℕ)
    → Lacks b'&' p
    → split_from bars (p ++ (b'&' ∷ b'&' ∷ s)) 0 ≡ p ∷ split_from bars s 0
unfolding split_from
split_bars [] s h = refl
split_bars (c ∷ p) s h = ground (arith, h, split_bars p s h.1)

split_last : (p : List ℕ) → Lacks b'&' p → split_from bars p 0 ≡ p ∷ []
unfolding split_from
split_last [] h = refl
split_last (c ∷ p) h = ground (arith, h, split_last p h.1)

word_or_star : (b : Bool) (w : List ℕ) → Lacks b'&' w → Lacks b'&' (if b then b'*' ∷ [] else w)
word_or_star true w h = ((ground arith), tt)
word_or_star false w h = h

space_or_none : (b : Bool) → Lacks b'&' (if b then 32 ∷ [] else [])
space_or_none true = ((ground arith), tt)
space_or_none false = tt

module _ (step : ℕ) (spacer chain : Bool) where
  combine_run-Lacks :
      (n j : ℕ) (src : List (List ℕ))
      → All (Lacks b'&') src
      → Lacks b'&' (combine_run step spacer chain n j src)
  unfolding combine_run
  combine_run-Lacks zero j src h = tt
  combine_run-Lacks (suc n) j [] h = tt
  combine_run-Lacks (suc n) j (w ∷ src) h =
      All-append (λ c. c ≢ b'&') _ _
        (word_or_star (ltb 2 step && (chain && (not (j == 0) && not (j + 1 == step)))) w h.0)
        (All-append (λ c. c ≢ b'&') _ _ (space_or_none (spacer && not ((j + 1) % step == 0)))
          (combine_run-Lacks n (j + 1) src h.1))

  -- The runs that start at each token but the last.
  runs : List (List ℕ) → List (List ℕ)
  runs (a ∷ b ∷ src) = combine_run step spacer chain step 0 (a ∷ b ∷ src) ∷ runs (b ∷ src)
  runs _ = []

  split_runs :
      (a b : List ℕ) (src : List (List ℕ))
      → All (Lacks b'&') (a ∷ b ∷ src)
      → split_from bars (combine_buffer step spacer chain (a ∷ b ∷ src)) 0 ≡ runs (a ∷ b ∷ src)
  unfolding combine_buffer runs
  split_runs a b [] h = split_last _ (combine_run-Lacks step 0 (a ∷ b ∷ []) h)
  split_runs a b (c ∷ src) h =
      split_bars _ (combine_buffer step spacer chain (b ∷ c ∷ src))
        (combine_run-Lacks step 0 (a ∷ b ∷ c ∷ src) h)
      ∙ ap (λ t. combine_run step spacer chain step 0 (a ∷ b ∷ c ∷ src) ∷ t)
          (split_runs b c src h.1)

-- Two neighbours with a space between them, from the left.
abbrev pub pairs : List (List ℕ) → List (List ℕ)
pairs (a ∷ b ∷ src) = (a ++ (32 ∷ b)) ∷ pairs (b ∷ src)
pairs _ = []

-- Three neighbours with spaces between them, the middle masked for a chain; of the last two tokens
-- the third is missing, and the space in front of it stays.
abbrev pub triples : Bool → List (List ℕ) → List (List ℕ)
triples chain (a ∷ b ∷ c ∷ src) =
    (a ++ (32 ∷ ((if chain then b'*' ∷ [] else b) ++ (32 ∷ c)))) ∷ triples chain (b ∷ c ∷ src)
triples chain (a ∷ b ∷ []) = (a ++ (32 ∷ ((if chain then b'*' ∷ [] else b) ++ (32 ∷ [])))) ∷ []
triples chain _ = []

run_two :
    (chain : Bool) (a b : List ℕ) (src : List (List ℕ))
    → combine_run 2 true chain 2 0 (a ∷ b ∷ src) ≡ a ++ (32 ∷ b)
unfolding combine_run
run_two chain a b src = ap (λ t. a ++ (32 ∷ t)) (append-nil b)

runs-pairs : (chain : Bool) (src : List (List ℕ)) → runs 2 true chain src ≡ pairs src
unfolding runs
runs-pairs chain [] = refl
runs-pairs chain (a ∷ []) = refl
runs-pairs chain (a ∷ b ∷ src) =
    ap₂ (λ w ws. w ∷ ws) (run_two chain a b src) (runs-pairs chain (b ∷ src))

runs-triples : (chain : Bool) (src : List (List ℕ)) → runs 3 true chain src ≡ triples chain src
unfolding runs combine_run
runs-triples chain [] = refl
runs-triples chain (a ∷ []) = refl
runs-triples true (a ∷ b ∷ []) = refl
runs-triples false (a ∷ b ∷ []) = refl
runs-triples true (a ∷ b ∷ c ∷ src) =
    ap₂ (λ w ws. w ∷ ws) (ap (λ t. a ++ (32 ∷ b'*' ∷ 32 ∷ t)) (append-nil c))
      (runs-triples true (b ∷ c ∷ src))
runs-triples false (a ∷ b ∷ c ∷ src) =
    ap₂ (λ w ws. w ∷ ws) (ap (λ t. a ++ (32 ∷ (b ++ (32 ∷ t)))) (append-nil c))
      (runs-triples false (b ∷ c ∷ src))

-- For two tokens or more, none with an `&` in it, `CombineToken` returns, with a spacer, the pairs of
-- neighbours for a step of two, and for a step of three the triples, whose middle is masked for a
-- chain. The last run of three is short: it has two tokens and ends in a space.
pub combine_token_runs :
    (a b : List ℕ) (src : List (List ℕ)) (chain : Bool)
    → All (Lacks b'&') (a ∷ b ∷ src)
    → (combine_token (a ∷ b ∷ src) 2 true chain ≡ pairs (a ∷ b ∷ src))
      × (combine_token (a ∷ b ∷ src) 3 true chain ≡ triples chain (a ∷ b ∷ src))
unfolding combine_token split_on
combine_token_runs a b src chain h = (
  split_runs 2 true chain a b src h ∙ runs-pairs chain (a ∷ b ∷ src),
  split_runs 3 true chain a b src h ∙ runs-triples chain (a ∷ b ∷ src),
)
