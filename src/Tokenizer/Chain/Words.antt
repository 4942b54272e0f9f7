-- ===== src/Tokenizer/Chain/Words.antt =====
-- The words that the chain tokenizer finds.
use mathlib.Core.List.{reverse, reverse-cons}
use easymail.Base.{
  ℕ, ◌+◌, ◌≤◌, ◌<◌, ◌≡◌, ◌≢◌, refl, ap, ap₂, sym, subst, ◌∙◌, ◌⊎◌, inl, inr, Bool, true, false,
  ◌&&◌, ◌||◌, not, List, [], ◌∷◌, ◌++◌, map, append-nil, arith, ◌==◌, ltb, leb, keep, take, length,
  if◌then◌else◌, All, All-append, Lacks, Bool-cases,
}
use easymail.Text.{split, trim_left, trim_right, extend}
use easymail.Text.Laws.{split-Lacks}
use easymail.Tokenizer.Chain.{
  wide, is_letter, mark, letter_runs, rune_length, byte_length, lower_rune, single_words,
  tokenize_ascii, get_multibyte, cut_chain,
}
use easymail.Tokenizer.Chain.Laws.{
  grams, at_least_one, Wide, wide-Wide, if-cons-All, get_multibyte-chosen,
}

module _ (P : ℕ → Type 0) where
  All-reverse : (xs : List ℕ) → All P xs → All P (reverse xs)
  All-reverse [] h = tt
  All-reverse (x ∷ xs) h =
      subst (All P) (sym (reverse-cons x xs))
        (All-append P (reverse xs) (x ∷ []) (All-reverse xs h.1) (h.0, tt))

  if-second : (b : Bool) (xs : List ℕ) (x : ℕ) → P x → All P xs → All P (if b then xs else x ∷ xs)
  if-second true xs x h k = k
  if-second false xs x h k = (h, k)

  trim_left-All : (sep : ℕ) (xs : List ℕ) → All P xs → All P (trim_left sep xs)
  unfolding trim_left
  trim_left-All sep [] h = tt
  trim_left-All sep (x ∷ xs) h = elim (Bool-cases (x == sep)) [
    | inl e ↦ rw e (trim_left-All sep xs h.1)
    | inr e ↦ rw e h
  ]

  trim_right-All : (sep : ℕ) (xs : List ℕ) → All P xs → All P (trim_right sep xs)
  unfolding trim_right
  trim_right-All sep xs h = All-reverse _ (trim_left-All sep (reverse xs) (All-reverse xs h))

  extend-All : (c : ℕ) (ps : List (List ℕ)) → P c → All (All P) ps → All (All P) (extend c ps)
  extend-All c [] h k = ((h, tt), tt)
  extend-All c (p ∷ ps) h k = ((h, k.0), k.1)

  split-All : (sep : ℕ) (xs : List ℕ) → All P xs → All (All P) (split sep xs)
  unfolding split
  split-All sep [] h = (tt, tt)
  split-All sep (x ∷ xs) h = elim (Bool-cases (x == sep)) [
    | inl e ↦ rw e (tt, split-All sep xs h.1)
    | inr e ↦ rw e (extend-All x (split sep xs) h.0 (split-All sep xs h.1))
  ]

-- A letter below 255 that is no ASCII capital.
abbrev IsSmall : ℕ → Type 0
IsSmall c = (is_letter c ≡ true) × (c < 255) × ((leb 65 c && leb c 90) ≡ false)

abbrev IsMark : ℕ → Type 0
IsMark c = (c ≡ 124) ⊎ IsSmall c

small_letter : (c : ℕ) → 97 ≤ c → c ≤ 122 → is_letter c ≡ true
unfolding is_letter
small_letter c h k = ground arith

high_letter : (c : ℕ) → 224 ≤ c → c ≤ 254 → c ≢ 247 → is_letter c ≡ true
unfolding is_letter
high_letter c h k n = ground arith

mark-IsMark : (c : ℕ) → IsMark (mark c)
unfolding mark
mark-IsMark c = elim (Bool-cases (is_letter c)) [
  | inl e ↦ ground (arith, e, small_letter (c + 32))
  | inr e ↦ ground (arith, e)
]

marks-IsMark : (s : List ℕ) → All IsMark (map mark s)
marks-IsMark [] = tt
marks-IsMark (c ∷ s) = (mark-IsMark c, marks-IsMark s)

run-IsSmall : (w : List ℕ) → All IsMark w → Lacks 124 w → All IsSmall w
run-IsSmall [] h k = tt
run-IsSmall (c ∷ w) (inl e, h) (n, k) = absurd (n e)
run-IsSmall (c ∷ w) (inr e, h) (n, k) = (e, run-IsSmall w h k)

runs-IsSmall :
    (ws : List (List ℕ)) → All (All IsMark) ws → All (Lacks 124) ws → All (All IsSmall) ws
runs-IsSmall [] h k = tt
runs-IsSmall (w ∷ ws) h k = (run-IsSmall w h.0 k.0, runs-IsSmall ws h.1 k.1)

letter_runs-IsSmall : (src : List ℕ) → All (All IsSmall) (letter_runs src)
unfolding letter_runs
letter_runs-IsSmall src =
    let buffer = trim_right 124 (map mark src) in
    runs-IsSmall (split 124 buffer)
      (split-All IsMark 124 buffer (trim_right-All IsMark 124 (map mark src) (marks-IsMark src)))
      (split-Lacks 124 buffer)

-- A letter that stays when it is made small.
abbrev pub IsLower : ℕ → Type 0
IsLower c = (is_letter c ≡ true) × (c < 255) × (lower_rune c ≡ c)

-- Two to sixteen bytes of small letters.
abbrev pub IsWord : List ℕ → Type 0
IsWord w = All IsLower w × (2 ≤ byte_length w) × (byte_length w ≤ 16)

lower_rune-IsLower :
    (c : ℕ) → IsSmall c → IsLower (lower_rune c) × (rune_length (lower_rune c) ≡ rune_length c)
unfolding lower_rune
lower_rune-IsLower c h = ground (arith, h, high_letter (c + 32))

lowered-IsWord :
    (w : List ℕ)
    → All IsSmall w
    → All IsLower (map lower_rune w) × (byte_length (map lower_rune w) ≡ byte_length w)
unfolding byte_length
lowered-IsWord [] h = (tt, refl)
lowered-IsWord (c ∷ w) h =
    let (a, b) = lower_rune-IsLower c h.0 in
    let (s, t) = lowered-IsWord w h.1 in ((a, s), ap₂ (λ x y. x + y) b t)

-- Kept by the filter of the multi-byte tokens: a single wide rune.
abbrev pub IsWideRune : List ℕ → Type 0
IsWideRune w = (c : ℕ) × (w ≡ c ∷ []) × (255 < c)

module _ (is_stop_word : List ℕ → Bool) where
  -- What the unitary tokens are.
  abbrev pub IsUnit : List ℕ → Type 0
  IsUnit w = (is_stop_word w ≡ false) × (IsWord w ⊎ IsWideRune w)

  word_step :
      (w : List ℕ) (ws : List (List ℕ)) (short stop : Bool)
      → (short ≡ false → stop ≡ false → IsUnit w)
      → All IsUnit ws
      → All IsUnit (if short then ws else if stop then ws else w ∷ ws)
  word_step w ws true stop h k = k
  word_step w ws false true h k = k
  word_step w ws false false h k = (h refl refl, k)

  single_words-IsUnit :
      (ws : List (List ℕ)) → All (All IsSmall) ws → All IsUnit (single_words is_stop_word ws)
  unfolding single_words
  single_words-IsUnit [] h = tt
  single_words-IsUnit (w ∷ ws) h =
      let (small, bytes) = lowered-IsWord w h.0 in
      word_step (map lower_rune w) (single_words is_stop_word ws)
        (ltb (byte_length w) 2 || ltb 16 (byte_length w)) (is_stop_word (map lower_rune w))
        (λ s k. (k, inl (small, (ground (arith, s, bytes)), (ground (arith, s, bytes)))))
        (single_words-IsUnit ws h.1)

  keep-All :
      {A : Type 0} (P : A → Type 0) (p : A → Bool) (xs : List A) → All P xs → All P (keep p xs)
  keep-All P p [] h = tt
  keep-All P p (x ∷ xs) h = elim (Bool-cases (p x)) [
    | inl e ↦ rw e (h.0, keep-All P p xs h.1)
    | inr e ↦ rw e (keep-All P p xs h.1)
  ]

  kept_one :
      (w : List ℕ) (ws : List (List ℕ)) (b stop : Bool)
      → is_stop_word w ≡ stop
      → IsWideRune w
      → All IsUnit ws
      → All IsUnit (if b && not stop then w ∷ ws else ws)
  kept_one w ws true true e h k = k
  kept_one w ws true false e h k = ((e, inr h), k)
  kept_one w ws false true e h k = k
  kept_one w ws false false e h k = k

  multi_kept :
      (ws : List (List ℕ))
      → All IsWideRune ws
      → All IsUnit (keep (λ v. leb 1 (byte_length v) && not (is_stop_word v)) ws)
  multi_kept [] h = tt
  multi_kept (w ∷ ws) h =
      kept_one w (keep (λ v. leb 1 (byte_length v) && not (is_stop_word v)) ws)
        (leb 1 (byte_length w)) (is_stop_word w) refl h.0 (multi_kept ws h.1)

  grams-IsWideRune : (s : List ℕ) → Wide s → All IsWideRune (grams 1 s)
  grams-IsWideRune [] h = tt
  grams-IsWideRune (c ∷ s) h =
      if-cons-All IsWideRune (leb 1 (length (c ∷ s))) (take 1 (c ∷ s)) (grams 1 s) (c, refl, h.0)
        (grams-IsWideRune s h.1)

  one_kept :
      (ws : List (List ℕ))
      → All IsWideRune ws
      → All IsUnit (keep (λ v. leb 1 (byte_length v) && not (is_stop_word v)) (at_least_one ws))
  one_kept [] h = unfold byte_length in tt
  one_kept (w ∷ ws) h = multi_kept (w ∷ ws) h

  multi-IsUnit :
      (src : List ℕ) (chain : Bool)
      → All IsUnit (
          keep
            (λ v. leb 1 (byte_length v) && not (is_stop_word v))
            (get_multibyte src true false false chain))
  multi-IsUnit src chain =
      let tokens : get_multibyte src true false false chain
          ≡ at_least_one (grams 1 (keep (ltb 255) src)) =
        get_multibyte-chosen src true false false chain
        ∙ ap at_least_one (append-nil (grams 1 (keep (ltb 255) src))) in
      subst (λ ws. All IsUnit (keep (λ v. leb 1 (byte_length v) && not (is_stop_word v)) ws))
        (sym tokens)
        (one_kept (grams 1 (keep (ltb 255) src))
          (grams-IsWideRune (keep (ltb 255) src) (unfold wide in wide-Wide src)))

  -- Asked for unitary tokens only, `Cut` returns no stop word, and each token is a word of two to
  -- sixteen bytes of small Latin letters, or one rune above 255.
  pub cut_chain_units :
      (src : List ℕ) (fuzzy : Bool) → All IsUnit (cut_chain is_stop_word src true false false fuzzy)
  unfolding cut_chain tokenize_ascii
  cut_chain_units src fuzzy =
      All-append IsUnit _ _
        (keep-All IsUnit (λ w. ltb 1 (byte_length w))
          (single_words is_stop_word (letter_runs src) ++ [])
          (All-append IsUnit _ [] (single_words-IsUnit (letter_runs src) (letter_runs-IsSmall src))
            tt))
        (multi-IsUnit src fuzzy)
