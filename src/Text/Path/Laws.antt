-- ===== src/Text/Path/Laws.antt =====
-- Paths from elements that are plain names.
use mathlib.Core.List.{reverse, reverse-cons, reverse-reverse, head-eq_of_cons-eq}
use easymail.Base.{
  ℕ, zero, suc, ◌+◌, ◌%◌, ◌/◌, ◌<◌, ◌≤◌, ◌≡◌, ◌≢◌, refl, ap, sym, ◌∙◌, Bool, true, false, ◌||◌,
  ◌&&◌, not, ◌==◌, ==_iff, List, [], ◌∷◌, ◌++◌, Bytes, codes, same, same_iff, is_empty, All, Lacks,
  append_assoc, append-nil, arith, ltb, inl, inr, Bool-cases,
}
use easymail.Text.{join, has_prefix, decimal, write_decimal}
use easymail.Text.Laws.{split-join}
use easymail.Text.Path.{push_part, clean_parts, clean, join_path}

-- A name of a file or a directory that is not special.
abbrev pub IsPlain : Bytes → Type 0
IsPlain p = (p ≢ []) × (p ≢ codes ".") × (p ≢ codes "..") × Lacks b'/' p

abbrev some_slash : Bytes → Bool
some_slash [] = false
some_slash (c ∷ p) = c == b'/' || some_slash p

-- The test for such a name.
abbrev pub is_plain : Bytes → Bool
is_plain p =
    not (is_empty p)
    && (not (same p (codes ".")) && (not (same p (codes "..")) && not (some_slash p)))

not_same : (s t : Bytes) → s ≢ t → same s t ≡ false
not_same s t h = elim (Bool-cases (same s t)) [
  | inl e ↦ absurd (h ((same_iff s t).0 e))
  | inr e ↦ e
]

push_plain :
    (rooted : Bool) (kept : List Bytes) (p : Bytes) → IsPlain p → push_part rooted kept p ≡ p ∷ kept
unfolding push_part
push_plain rooted kept [] (ne, _, _, _) = absurd (ne refl)
push_plain rooted kept (c ∷ p) (_, dot, dots, _) =
    rw (not_same (c ∷ p) (codes ".") dot, not_same (c ∷ p) (codes "..") dots) refl

clean_plain :
    (rooted : Bool) (kept ps : List Bytes)
    → All IsPlain ps
    → clean_parts rooted kept ps ≡ reverse ps ++ kept
unfolding clean_parts
clean_plain rooted kept [] h = refl
clean_plain rooted kept (p ∷ ps) (h, hs) =
    ap (λ k. clean_parts rooted k ps) (push_plain rooted kept p h)
    ∙ clean_plain rooted (p ∷ kept) ps hs
    ∙ sym (append_assoc (reverse ps) (p ∷ []) kept)
    ∙ ap (λ r. r ++ kept) (sym (reverse-cons p ps))

plain-Lacks : (ps : List Bytes) → All IsPlain ps → All (Lacks b'/') ps
plain-Lacks [] h = tt
plain-Lacks (p ∷ ps) ((_, _, _, lacks), hs) = (lacks, plain-Lacks ps hs)

-- The path from the root along some elements.
abbrev pub rooted_path : List Bytes → Bytes
rooted_path ps = b'/' ∷ join (codes "/") ps

clean-rooted_path :
    (p : Bytes) (ps : List Bytes)
    → All IsPlain (p ∷ ps)
    → clean (rooted_path (p ∷ ps)) ≡ rooted_path (p ∷ ps)
unfolding clean
clean-rooted_path p ps h =
    rw
      (
        split-join b'/' p ps (plain-Lacks (p ∷ ps) h),
        clean_plain (has_prefix (rooted_path (p ∷ ps)) (codes "/")) [] (p ∷ ps) h,
        append-nil (reverse (p ∷ ps)),
        reverse-reverse (p ∷ ps),
      )
      refl

join-append :
    (p q : Bytes) (ps qs : List Bytes)
    → join (codes "/") (p ∷ ps ++ (q ∷ qs))
      ≡ join (codes "/") (p ∷ ps) ++ (b'/' ∷ join (codes "/") (q ∷ qs))
unfolding join
join-append p q [] qs = refl
join-append p q (r ∷ ps) qs =
    ap (λ t. p ++ (b'/' ∷ t)) (join-append r q ps qs) ∙ sym (append_assoc p _ _)

-- Joining a path of plain names with further ones gives the path along all of them.
pub join_path-below :
    (p q : Bytes) (ps qs : List Bytes)
    → All IsPlain (p ∷ ps ++ (q ∷ qs))
    → join_path (rooted_path (p ∷ ps) ∷ join (codes "/") (q ∷ qs) ∷ [])
      ≡ rooted_path (p ∷ ps ++ (q ∷ qs))
unfolding join_path
join_path-below p q ps qs h =
    ap clean (ap (λ s. b'/' ∷ s) (sym (join-append p q ps qs)))
    ∙ clean-rooted_path p (ps ++ (q ∷ qs)) h

abbrev IsDigit : ℕ → Type 0
IsDigit c = (48 ≤ c) × (c < 58)

write_decimal-IsDigit :
    (f n : ℕ) (out : Bytes) → All IsDigit out → All IsDigit (write_decimal f n out)
unfolding write_decimal
write_decimal-IsDigit zero n out h = h
write_decimal-IsDigit (suc f) n out h = elim (Bool-cases (ltb n 10)) [
  | inl e ↦ rw e ((omega arith, ground (arith, e)), h)
  | inr e ↦
      rw e
        (write_decimal-IsDigit f (n / 10) ((b'0' + n % 10) ∷ out) ((omega arith, omega arith), h))
]

write_decimal-ne-nil : (f n : ℕ) (out : Bytes) → out ≢ [] → write_decimal f n out ≢ []
unfolding write_decimal
write_decimal-ne-nil zero n out h = h
write_decimal-ne-nil (suc f) n out h = elim (Bool-cases (ltb n 10)) [
  | inl e ↦ rw e (λ k. cc k)
  | inr e ↦ rw e (write_decimal-ne-nil f (n / 10) ((b'0' + n % 10) ∷ out) (λ k. cc k))
]

some_digit : (f n : ℕ) → write_decimal (suc f) n [] ≢ []
unfolding write_decimal
some_digit f n = elim (Bool-cases (ltb n 10)) [
  | inl e ↦ rw e (λ k. cc k)
  | inr e ↦ rw e (write_decimal-ne-nil f (n / 10) ((b'0' + n % 10) ∷ []) (λ k. cc k))
]

digits-Lacks : (p : Bytes) → All IsDigit p → Lacks b'/' p
digits-Lacks [] h = tt
digits-Lacks (c ∷ p) (d, h) = (λ e. omega (arith, d.0, e), digits-Lacks p h)

not_dot : (q : Bytes) (c : ℕ) (p : Bytes) → IsDigit c → c ∷ p ≢ b'.' ∷ q
not_dot q c p d e = omega (arith, d.0, head-eq_of_cons-eq e)

digits-IsPlain : (p : Bytes) → p ≢ [] → All IsDigit p → IsPlain p
digits-IsPlain [] ne h = absurd (ne refl)
digits-IsPlain (c ∷ p) ne (d, h) =
    (ne, not_dot [] c p d, not_dot (b'.' ∷ []) c p d, digits-Lacks (c ∷ p) (d, h))

pub decimal-IsPlain : (n : ℕ) → IsPlain (decimal n)
unfolding decimal
decimal-IsPlain n = digits-IsPlain (decimal n) (some_digit 19 n) (write_decimal-IsDigit 20 n [] tt)

neither : (a b : Bool) → (a || b) ≡ false → (a ≡ false) × (b ≡ false)
neither false b e = (refl, e)
neither true b e = absurd (cc e)

both_not : (a b : Bool) → (not a && b) ≡ true → (a ≡ false) × (b ≡ true)
both_not false b e = (refl, e)
both_not true b e = absurd (cc e)

was_not : (a : Bool) → not a ≡ true → a ≡ false
was_not false e = refl
was_not true e = absurd (cc e)

no_slash-Lacks : (p : Bytes) → some_slash p ≡ false → Lacks b'/' p
no_slash-Lacks [] e = tt
no_slash-Lacks (c ∷ p) e =
    let (here, rest) = neither (c == b'/') (some_slash p) e in
    (λ k. cc (here, (==_iff c b'/').1 k), no_slash-Lacks p rest)

pub is_plain-IsPlain : (p : Bytes) → is_plain p ≡ true → IsPlain p
is_plain-IsPlain p e =
    let (some_byte, rest) = both_not (is_empty p) _ e in
    let (no_dot, rest') = both_not (same p (codes ".")) _ rest in
    let (no_dots, no_slash) = both_not (same p (codes "..")) _ rest' in
    (
      λ k. cc (some_byte, ap is_empty k),
      λ k. cc (no_dot, (same_iff p (codes ".")).1 k),
      λ k. cc (no_dots, (same_iff p (codes "..")).1 k),
      no_slash-Lacks p (was_not (some_slash p) no_slash),
    )
