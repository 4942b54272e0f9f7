-- ===== src/Tokenizer/Chain/Laws.antt =====
-- The chains of wide runes against a description of what they are.
use easymail.Base.{
  ℕ, zero, suc, ◌<◌, ◌≡◌, refl, ap, ap₂, sym, ◌∙◌, Bool, true, false, List, [], ◌∷◌, ◌++◌, map,
  append_assoc, arith, ltb, leb, keep, take, length, if◌then◌else◌, All, All-append, Lacks,
  Bool-cases, inl, inr,
}
use easymail.Text.{split, trim_right}
use easymail.Text.Terminated.{terminated, IsField, split-trim_right}
use easymail.Tokenizer.Chain.{
  wide, write_single, write_double, write_triple, write_chain, multibyte_buffer, get_multibyte,
}

-- The runs of `n` neighbours, from the left.
abbrev pub grams : ℕ → List ℕ → List (List ℕ)
grams n [] = []
grams n (a ∷ s) =
    let rest = grams n s in if leb n (length (a ∷ s)) then take n (a ∷ s) ∷ rest else rest

-- A run of three with its middle masked.
abbrev pub masked : List ℕ → List ℕ
masked (a ∷ b ∷ c ∷ s) = a ∷ b'*' ∷ c ∷ s
masked w = w

-- The tokens that the flags ask for.
abbrev pub chosen : Bool → Bool → Bool → Bool → List ℕ → List (List ℕ)
chosen unitary binary ternary chain s =
    (if unitary then grams 1 s else [])
    ++ ((if binary then grams 2 s else [])
        ++ (if ternary then grams 3 s ++ (if chain then map masked (grams 3 s) else []) else []))

terminated-append :
    (sep : ℕ) (xs ys : List (List ℕ))
    → terminated sep (xs ++ ys) ≡ terminated sep xs ++ terminated sep ys
terminated-append sep [] ys = refl
terminated-append sep (x ∷ xs) ys =
    ap (λ t. x ++ (sep ∷ t)) (terminated-append sep xs ys)
    ∙ sym (append_assoc x (sep ∷ terminated sep xs) (terminated sep ys))

write_single_lem : (s : List ℕ) → write_single s ≡ terminated 124 (grams 1 s)
unfolding write_single
write_single_lem [] = refl
write_single_lem (a ∷ s) = ground (arith, write_single_lem s)

write_double_lem : (s : List ℕ) → write_double s ≡ terminated 124 (grams 2 s)
unfolding write_double
write_double_lem [] = refl
write_double_lem (a ∷ []) = refl
write_double_lem (a ∷ b ∷ s) = ground (arith, write_double_lem (b ∷ s))

write_triple_lem : (s : List ℕ) → write_triple s ≡ terminated 124 (grams 3 s)
unfolding write_triple
write_triple_lem [] = refl
write_triple_lem (a ∷ []) = refl
write_triple_lem (a ∷ b ∷ []) = refl
write_triple_lem (a ∷ b ∷ c ∷ s) = ground (arith, write_triple_lem (b ∷ c ∷ s))

write_chain_lem : (s : List ℕ) → write_chain s ≡ terminated 124 (map masked (grams 3 s))
unfolding write_chain
write_chain_lem [] = refl
write_chain_lem (a ∷ []) = refl
write_chain_lem (a ∷ b ∷ []) = refl
write_chain_lem (a ∷ b ∷ c ∷ s) = ground (arith, write_chain_lem (b ∷ c ∷ s))

abbrev pub Wide : List ℕ → Type 0
Wide = All (λ c. 255 < c)

pub wide-Wide : (s : List ℕ) → Wide (wide s)
unfolding wide
wide-Wide [] = tt
wide-Wide (c ∷ s) = elim (Bool-cases (ltb 255 c)) [
  | inl e ↦ ground (arith, e, wide-Wide s)
  | inr e ↦ ground (arith, e, wide-Wide s)
]

take-Lacks : (n : ℕ) (s : List ℕ) → Wide s → Lacks 124 (take n s)
take-Lacks zero s h = tt
take-Lacks (suc n) [] h = tt
take-Lacks (suc n) (c ∷ s) h = ((ground (arith, h.0)), take-Lacks n s h.1)

pub if-cons-All :
    {A : Type 0} (P : A → Type 0) (b : Bool) (x : A) (xs : List A)
    → P x
    → All P xs
    → All P (if b then x ∷ xs else xs)
if-cons-All P true x xs h k = (h, k)
if-cons-All P false x xs h k = k

grams-IsField : (n : ℕ) (s : List ℕ) → Wide s → All (IsField 124) (grams (suc n) s)
grams-IsField n [] h = tt
grams-IsField n (c ∷ s) h =
    if-cons-All (IsField 124) (leb (suc n) (length (c ∷ s))) (take (suc n) (c ∷ s))
      (grams (suc n) s) ((λ e. cc e), take-Lacks (suc n) (c ∷ s) h) (grams-IsField n s h.1)

masked-IsField : (w : List ℕ) → IsField 124 w → IsField 124 (masked w)
masked-IsField [] h = h
masked-IsField (a ∷ []) h = h
masked-IsField (a ∷ b ∷ []) h = h
masked-IsField (a ∷ b ∷ c ∷ s) (h, (x, (y, z))) = ((λ e. cc e), (x, ((ground arith), z)))

map-masked-IsField : (ws : List (List ℕ)) → All (IsField 124) ws → All (IsField 124) (map masked ws)
map-masked-IsField [] h = tt
map-masked-IsField (w ∷ ws) h = (masked-IsField w h.0, map-masked-IsField ws h.1)

if-All :
    {A : Type 0} (P : A → Type 0) (b : Bool) (xs : List A) → All P xs → All P (if b then xs else [])
if-All P true xs h = h
if-All P false xs h = tt

chosen-IsField : (u b t c : Bool) (s : List ℕ) → Wide s → All (IsField 124) (chosen u b t c s)
chosen-IsField u b t c s h =
    All-append (IsField 124) _ _ (if-All (IsField 124) u _ (grams-IsField 0 s h)) (
      All-append (IsField 124) _ _ (if-All (IsField 124) b _ (grams-IsField 1 s h)) (
        if-All (IsField 124) t _ (
          All-append (IsField 124) _ _ (grams-IsField 2 s h)
            (if-All (IsField 124) c _ (map-masked-IsField (grams 3 s) (grams-IsField 2 s h))))))

if-terminated :
    (b : Bool) (xs : List (List ℕ)) (t : List ℕ)
    → t ≡ terminated 124 xs
    → (if b then t else []) ≡ terminated 124 (if b then xs else [])
if-terminated true xs t e = e
if-terminated false xs t e = refl

buffer_lem :
    (u b t c : Bool) (s : List ℕ) → multibyte_buffer u b t c s ≡ terminated 124 (chosen u b t c s)
unfolding multibyte_buffer
buffer_lem u b t c s =
    ap₂ (λ x y. x ++ y) (if-terminated u _ _ (write_single_lem s))
      (ap₂ (λ x y. x ++ y) (if-terminated b _ _ (write_double_lem s))
          (if-terminated t _ _ (
            ap₂ (λ x y. x ++ y) (write_triple_lem s) (if-terminated c _ _ (write_chain_lem s))
            ∙ sym (terminated-append 124 (grams 3 s) (if c then map masked (grams 3 s) else []))))
        ∙ sym (terminated-append 124 (if b then grams 2 s else []) _))
    ∙ sym (terminated-append 124 (if u then grams 1 s else []) _)

-- At least one token: the empty one, when there is no other.
abbrev pub at_least_one : List (List ℕ) → List (List ℕ)
at_least_one [] = [] ∷ []
at_least_one (w ∷ ws) = w ∷ ws

split_chosen :
    (ws : List (List ℕ))
    → All (IsField 124) ws
    → split 124 (trim_right 124 (terminated 124 ws)) ≡ at_least_one ws
split_chosen [] h = unfold split in unfold trim_right in refl
split_chosen (w ∷ ws) h = split-trim_right 124 w ws h

-- `getMultibyte` returns the runs of one, two and three neighbours among the wide runes of the text,
-- and those of three with their middle masked, each kind if its flag is set and the masked ones if
-- chains are asked for with the ternary ones; where that is nothing, it returns one empty token.
pub get_multibyte-chosen :
    (src : List ℕ) (unitary binary ternary chain : Bool)
    → get_multibyte src unitary binary ternary chain
      ≡ at_least_one (chosen unitary binary ternary chain (keep (ltb 255) src))
unfolding get_multibyte wide
get_multibyte-chosen src u b t c =
    ap (λ x. split 124 (trim_right 124 x)) (buffer_lem u b t c (wide src))
    ∙ split_chosen (chosen u b t c (wide src)) (chosen-IsField u b t c (wide src) (wide-Wide src))
