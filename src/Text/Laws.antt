-- ===== src/Text/Laws.antt =====
-- Laws of the text functions: what the parts of a split are, and how a search finds its separator.
use easymail.Base.{
  ℕ, ◌≡◌, refl, ap, ◌∙◌, ◌≢◌, inl, inr, none, some, List, [], ◌∷◌, ◌++◌, arith, Bytes, ◌==◌, ==_iff,
  Bool-cases, Option-cases, All, Lacks, ap₂,
}
use easymail.Text.{extend, split, cut, split_two, join, lower, to_lower}

-- Putting a byte in front of the first part puts it in front of the joined text.
join-extend : (sep : Bytes) (c : ℕ) (ps : List Bytes) → join sep (extend c ps) ≡ c ∷ join sep ps
unfolding join
join-extend sep c [] = refl
join-extend sep c (p ∷ []) = refl
join-extend sep c (p ∷ q ∷ ps) = refl

split-ne-nil : (sep : ℕ) (s : Bytes) → split sep s ≢ []
unfolding split
split-ne-nil sep [] = ground arith
split-ne-nil sep (c ∷ s) = ground (arith, split-ne-nil sep s)

join-nil-cons :
    (sep : ℕ) (ps : List Bytes) → ps ≢ [] → join (sep ∷ []) ([] ∷ ps) ≡ sep ∷ join (sep ∷ []) ps
unfolding join
join-nil-cons sep [] h = absurd (h refl)
join-nil-cons sep (p ∷ ps) h = refl

-- Joining the parts gives the text back.
pub join-split : (sep : ℕ) (s : Bytes) → join (sep ∷ []) (split sep s) ≡ s
unfolding split
join-split sep [] = unfold join in refl
join-split sep (c ∷ s) = elim (Bool-cases (c == sep)) [
  | inl e ↦
      rw e (join-nil-cons sep _ (split-ne-nil sep s) ∙ cc (join-split sep s, (==_iff c sep).0 e))
  | inr e ↦ rw e (join-extend (sep ∷ []) c (split sep s) ∙ ap (λ t. c ∷ t) (join-split sep s))
]

extend-Lacks :
    (sep c : ℕ) (ps : List Bytes) → c ≢ sep → All (Lacks sep) ps → All (Lacks sep) (extend c ps)
extend-Lacks sep c [] h hs = ((h, tt), tt)
extend-Lacks sep c (p ∷ ps) h hs = ((h, hs.0), hs.1)

-- No part of a split holds the separator.
pub split-Lacks : (sep : ℕ) (s : Bytes) → All (Lacks sep) (split sep s)
unfolding split
split-Lacks sep [] = (tt, tt)
split-Lacks sep (c ∷ s) = elim (Bool-cases (c == sep)) [
  | inl e ↦ rw e (tt, split-Lacks sep s)
  | inr e ↦ rw e (extend-Lacks sep c _ (λ p. cc ((==_iff c sep).1 p)) (split-Lacks sep s))
]

-- A part before a separator is the first part of the split.
pub split-append :
    (sep : ℕ) (p s : Bytes) → Lacks sep p → split sep (p ++ sep ∷ s) ≡ p ∷ split sep s
unfolding split
split-append sep [] s h = ground arith
split-append sep (c ∷ p) s h = ground (arith, split-append sep p s h.1)

pub split_whole : (sep : ℕ) (p : Bytes) → Lacks sep p → split sep p ≡ p ∷ []
unfolding split
split_whole sep [] h = refl
split_whole sep (c ∷ p) h = ground (arith, split_whole sep p h.1)

-- Splitting joined parts gives them back, if none of them holds the separator.
pub split-join :
    (sep : ℕ) (p : Bytes) (ps : List Bytes)
    → All (Lacks sep) (p ∷ ps)
    → split sep (join (sep ∷ []) (p ∷ ps)) ≡ p ∷ ps
unfolding join
split-join sep p [] h = split_whole sep p h.0
split-join sep p (q ∷ ps) h =
    split-append sep p (join (sep ∷ []) (q ∷ ps)) h.0 ∙ ap (λ t. p ∷ t) (split-join sep q ps h.1)

-- A search finds the first separator.
pub cut-append : (sep : ℕ) (a b : Bytes) → Lacks sep a → cut sep (a ++ sep ∷ b) ≡ some (a, b)
unfolding cut
cut-append sep [] b h = ground arith
cut-append sep (c ∷ a) b h = ground (arith, cut-append sep a b h.1)

pub cut-none : (sep : ℕ) (s : Bytes) → Lacks sep s → cut sep s ≡ none
unfolding cut
cut-none sep [] h = refl
cut-none sep (c ∷ s) h = ground (arith, cut-none sep s h.1)

-- What a search finds: the text falls into the two parts, and the first lacks the separator.
pub cut_sound :
    (sep : ℕ) (s a b : Bytes) → cut sep s ≡ some (a, b) → (s ≡ a ++ sep ∷ b) × Lacks sep a
unfolding cut
cut_sound sep [] a b h = absurd (cc)
cut_sound sep (c ∷ s) a b h = elim (Bool-cases (c == sep)) [
  | inl e ↦ ground arith
  | inr e ↦ elim (Option-cases (cut sep s)) [
    | inl n ↦ ground arith
    | inr (p, q) ↦ ground (arith, cut_sound sep s p.0 p.1 q)
  ]
]

-- A text without a hit lacks the separator.
pub cut_complete : (sep : ℕ) (s : Bytes) → cut sep s ≡ none → Lacks sep s
unfolding cut
cut_complete sep [] h = tt
cut_complete sep (c ∷ s) h = ground (arith, cut_complete sep s)

pub lower_idem : (c : ℕ) → lower (lower c) ≡ lower c
lower_idem c = ground arith

pub to_lower_idem : (s : Bytes) → to_lower (to_lower s) ≡ to_lower s
unfolding to_lower
to_lower_idem [] = refl
to_lower_idem (c ∷ s) = ap₂ (λ d t. d ∷ t) (lower_idem c) (to_lower_idem s)

-- SplitN into two: both parts, cut at the first separator.
pub split_two-append :
    (sep : ℕ) (a b : Bytes) → Lacks sep a → split_two sep (a ++ sep ∷ b) ≡ a ∷ b ∷ []
unfolding split_two
split_two-append sep a b h = rw (cut-append sep a b h, split_two)

pub split_two_whole : (sep : ℕ) (s : Bytes) → Lacks sep s → split_two sep s ≡ s ∷ []
unfolding split_two
split_two_whole sep s h = rw (cut-none sep s h, split_two)
