-- ===== src/Tokenizer/New/Laws.antt =====
-- What a simple tokenizer of `NewTokenizerBasic` does with wide runes.
use easymail.Base.{
  ℕ, ◌≡◌, ◌<◌, refl, ap, ◌∙◌, Bool, true, false, not, none, some, List, [], ◌∷◌, Bytes, All, ◌==◌,
  ltb, keep, arith,
}
use easymail.Tokenizer.{TokenizerBasic, among, is_separator, cut_text}
use easymail.Tokenizer.Laws.{flatten, cut_text_whole}
use easymail.Tokenizer.New.{
  default_separator, first_bytes, separators_or_default, new_tokenizer_basic,
}

-- A text that can be a separator: it is not empty, and its first byte is one.
abbrev pub IsSeparator : Bytes → Type 0
IsSeparator [] = ⊥
IsSeparator (b ∷ s) = b < 256

first_bytes-All :
    (ss : List Bytes)
    → All IsSeparator ss
    → (bs : List ℕ) × (first_bytes ss ≡ some bs) × All (λ b. b < 256) bs
unfolding first_bytes
first_bytes-All [] h = ([], refl, tt)
first_bytes-All ([] ∷ ss) (h, _) = absurd h
first_bytes-All ((b ∷ s) ∷ ss) (h, hs) =
    let (bs, e, k) = first_bytes-All ss hs in
    (b ∷ bs, ap (λ o. elim o [ none ↦ none | some xs ↦ some (b ∷ xs) ]) e, (h, k))

default-IsSeparator : All IsSeparator default_separator
default-IsSeparator = ground arith

given-IsSeparator :
    (ss : List Bytes) → All IsSeparator ss → All IsSeparator (separators_or_default ss)
given-IsSeparator [] h = default-IsSeparator
given-IsSeparator (s ∷ ss) h = h

among_bytes : (bs : List ℕ) (r : ℕ) → All (λ b. b < 256) bs → ltb 255 r ≡ true → among r bs ≡ false
among_bytes [] r h w = refl
among_bytes (b ∷ bs) r (h, hs) w = ground (arith, among_bytes bs r hs w)

-- The test that is kept drops nothing that the other test passes.
keep-keep :
    (p q : ℕ → Bool) (xs : List ℕ)
    → ((x : ℕ) → p x ≡ true → q x ≡ true)
    → keep p (keep q xs) ≡ keep p xs
keep-keep p q [] h = refl
keep-keep p q (x ∷ xs) h = ground (arith, keep-keep p q xs h, h x)

module _ (ss : List Bytes) (h : All IsSeparator ss) where
  -- Given separators that are not empty, or none, the first call of `NewTokenizerBasic` returns a
  -- tokenizer. It loses no rune above 255 of any text but the byte order mark, be the separators, as
  -- the default ones are, wide or not: the tokens' wide runes, in order, are those of the text. A later
  -- call returns nil.
  pub new_tokenizer_basic_wide :
      (t : TokenizerBasic) × (new_tokenizer_basic ss false ≡ some (some t, true))
      × (new_tokenizer_basic ss true ≡ some (none, true))
      × ((text : List ℕ)
          → keep (ltb 255) (flatten (cut_text t text))
            ≡ keep (ltb 255) (keep (λ r. not (r == 65279)) text))
  unfolding new_tokenizer_basic
  new_tokenizer_basic_wide =
      let (bs, e, k) = first_bytes-All (separators_or_default ss) (given-IsSeparator ss h) in
      let t : TokenizerBasic = record { separator = bs } in
      (
        t,
        cc e,
        cc e,
        (λ text.
            ap (keep (ltb 255)) ((cut_text_whole t text).1)
            ∙ keep-keep (ltb 255) (λ r. not (is_separator t r)) (keep (λ r. not (r == 65279)) text)
                (λ r w. ap not (among_bytes bs r k w))),
      )
