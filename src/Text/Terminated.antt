-- ===== src/Text/Terminated.antt =====
-- Texts with a separator behind each, as a loop that appends to a buffer leaves them, and how they
-- are trimmed and split again.
use mathlib.Core.List.{reverse, reverse-append, reverse-cons, reverse-reverse}
use easymail.Base.{
  ℕ, ◌≡◌, ◌≢◌, refl, ap, sym, subst, ◌∙◌, List, [], ◌∷◌, ◌++◌, arith, append_assoc, Bytes, All,
  Lacks,
}
use easymail.Text.{split, trim, trim_left, trim_right, join}
use easymail.Text.Laws.{split-join}

module _ (sep : ℕ) where
  -- Each text with a separator behind it.
  abbrev pub terminated : List Bytes → Bytes
  terminated [] = []
  terminated (p ∷ ps) = p ++ sep ∷ terminated ps

  -- The text is not empty and does not begin with the separator.
  abbrev pub StartsBare : Bytes → Type 0
  StartsBare [] = ⊥
  StartsBare (c ∷ s) = c ≢ sep

  pub trim_left_bare : (s : Bytes) → StartsBare s → trim_left sep s ≡ s
  unfolding trim_left
  trim_left_bare [] h = absurd h
  trim_left_bare (c ∷ s) h = ground arith

  StartsBare-append : (s t : Bytes) → StartsBare s → StartsBare (s ++ t)
  StartsBare-append [] t h = absurd h
  StartsBare-append (c ∷ s) t h = h

  trim_left_once : (s : Bytes) → trim_left sep (sep ∷ s) ≡ trim_left sep s
  unfolding trim_left
  trim_left_once s = ground arith

  -- A text that ends without the separator comes back from one with a separator behind it.
  pub trim_right_terminated :
      (s : Bytes) → StartsBare (reverse s) → trim_right sep (s ++ sep ∷ []) ≡ s
  unfolding trim_right
  trim_right_terminated s k =
      ap (λ t. reverse (trim_left sep t)) (reverse-append s (sep ∷ []))
      ∙ ap reverse (trim_left_once (reverse s) ∙ trim_left_bare (reverse s) k)
      ∙ reverse-reverse s

  -- So does one that begins without it, too, when it is trimmed on both sides.
  pub trim_terminated :
      (s : Bytes) → StartsBare s → StartsBare (reverse s) → trim sep (s ++ sep ∷ []) ≡ s
  unfolding trim
  trim_terminated s h k =
      ap (trim_right sep) (trim_left_bare (s ++ sep ∷ []) (StartsBare-append s (sep ∷ []) h))
      ∙ trim_right_terminated s k

  -- A field: some text, with no separator in it.
  abbrev pub IsField : Bytes → Type 0
  IsField p = (p ≢ []) × Lacks sep p

  IsField-StartsBare : (p : Bytes) → IsField p → StartsBare p
  IsField-StartsBare [] h = h.0 refl
  IsField-StartsBare (c ∷ p) h = h.1.0

  Lacks-EndsBare : (c : ℕ) (p : Bytes) → Lacks sep (c ∷ p) → StartsBare (reverse (c ∷ p))
  Lacks-EndsBare c [] h = h.0
  Lacks-EndsBare c (d ∷ p) h =
      subst StartsBare (sym (reverse-cons c (d ∷ p)))
        (StartsBare-append (reverse (d ∷ p)) (c ∷ []) (Lacks-EndsBare d p h.1))

  IsField-EndsBare : (p : Bytes) → IsField p → StartsBare (reverse p)
  IsField-EndsBare [] h = absurd (h.0 refl)
  IsField-EndsBare (c ∷ p) h = Lacks-EndsBare c p h.1

  EndsBare-append : (s t : Bytes) → StartsBare (reverse t) → StartsBare (reverse (s ++ t))
  EndsBare-append s t h =
      subst StartsBare (sym (reverse-append s t)) (StartsBare-append (reverse t) (reverse s) h)

  pub join-StartsBare :
      (p : Bytes) (ps : List Bytes) → All IsField (p ∷ ps) → StartsBare (join (sep ∷ []) (p ∷ ps))
  unfolding join
  join-StartsBare p [] h = IsField-StartsBare p h.0
  join-StartsBare p (q ∷ ps) h = StartsBare-append p _ (IsField-StartsBare p h.0)

  pub join-EndsBare :
      (p : Bytes) (ps : List Bytes)
      → All IsField (p ∷ ps)
      → StartsBare (reverse (join (sep ∷ []) (p ∷ ps)))
  unfolding join
  join-EndsBare p [] h = IsField-EndsBare p h.0
  join-EndsBare p (q ∷ ps) h =
      EndsBare-append p (sep ∷ join (sep ∷ []) (q ∷ ps))
        (EndsBare-append (sep ∷ []) (join (sep ∷ []) (q ∷ ps)) (join-EndsBare q ps h.1))

  -- The terminated fields are the joined fields with one separator behind them.
  pub terminated-join :
      (p : Bytes) (ps : List Bytes) → terminated (p ∷ ps) ≡ join (sep ∷ []) (p ∷ ps) ++ sep ∷ []
  unfolding join
  terminated-join p [] = refl
  terminated-join p (q ∷ ps) =
      ap (λ t. p ++ sep ∷ t) (terminated-join q ps)
      ∙ sym (append_assoc p (sep ∷ join (sep ∷ []) (q ∷ ps)) (sep ∷ []))

  pub fields-Lacks : (ps : List Bytes) → All IsField ps → All (Lacks sep) ps
  fields-Lacks [] h = tt
  fields-Lacks (p ∷ ps) h = (h.0.1, fields-Lacks ps h.1)

  -- Trimmed on the right and split, terminated fields are the fields.
  pub split-trim_right :
      (p : Bytes) (ps : List Bytes)
      → All IsField (p ∷ ps)
      → split sep (trim_right sep (terminated (p ∷ ps))) ≡ p ∷ ps
  split-trim_right p ps h =
      ap (λ t. split sep (trim_right sep t)) (terminated-join p ps)
      ∙ ap (split sep) (trim_right_terminated (join (sep ∷ []) (p ∷ ps)) (join-EndsBare p ps h))
      ∙ split-join sep p ps (fields-Lacks (p ∷ ps) h)
