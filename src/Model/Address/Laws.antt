-- ===== src/Model/Address/Laws.antt =====
-- What the regular expression of an address matches.
use mathlib.Core.List.{reverse, reverse-append, reverse-cons, reverse-reverse}
use easymail.Base.{
  ℕ, ◌≤◌, ◌≡◌, ◌↔◌, ◌⊎◌, inl, inr, refl, ap, sym, ◌∙◌, Bool, true, false, ◌&&◌, not, Option, none,
  some, [], ◌∷◌, ◌++◌, append_assoc, arith, Bytes, codes, same_iff, is_empty, length, length-append,
  Lacks, Bool-cases,
}
use easymail.Text.{cut, every}
use easymail.Text.Laws.{cut-append, cut_sound}
use easymail.Model.Address.{
  is_letter, is_local_char, is_host_char, match_labels, match_host, match_parts, match_email,
}

every-append : (p : ℕ → Bool) (s t : Bytes) → every p (s ++ t) ≡ (every p s && every p t)
unfolding every
every-append p [] t = refl
every-append p (c ∷ s) t = ground (arith, every-append p s t)

every-reverse : (p : ℕ → Bool) (s : Bytes) → every p (reverse s) ≡ every p s
unfolding every
every-reverse p [] = refl
every-reverse p (c ∷ s) =
    ap (every p) (reverse-cons c s)
    ∙ every-append p (reverse s) (c ∷ [])
    ∙ ground (arith, every-reverse p s)

length-reverse : (s : Bytes) → length (reverse s) ≡ length s
length-reverse [] = refl
length-reverse (c ∷ s) =
    ap (λ t. length t) (reverse-cons c s)
    ∙ length-append (reverse s) (c ∷ [])
    ∙ omega (arith, length-reverse s)

reverse-middle : (c : ℕ) (s t : Bytes) → reverse (s ++ (c ∷ t)) ≡ reverse t ++ (c ∷ reverse s)
reverse-middle c s t =
    reverse-append s (c ∷ t)
    ∙ ap (λ x. x ++ reverse s) (reverse-cons c t)
    ∙ append_assoc (reverse t) (c ∷ []) (reverse s)

is_empty-length : (s : Bytes) → (not (is_empty s) ≡ true) ↔ (1 ≤ length s)
is_empty-length [] = ground arith
is_empty-length (c ∷ s) = ground arith

every-Lacks : (p : ℕ → Bool) (b : ℕ) (s : Bytes) → p b ≡ false → every p s ≡ true → Lacks b s
unfolding every
every-Lacks p b [] h e = tt
every-Lacks p b (c ∷ s) h e = elim (Bool-cases (p c)) [
  | inl k ↦ ((λ q. absurd (cc (ap p q, k, h))), every-Lacks p b s h (ground (arith, k, e)))
  | inr k ↦ absurd (ground (arith, k, e))
]

-- `[a-zA-Z0-9.\-]+\.[a-zA-Z]{2,}`, as the expression reads.
abbrev pub IsHost : Bytes → Type 0
IsHost h =
    (front : Bytes) × (top : Bytes) × (h ≡ front ++ (b'.' ∷ top))
    × (1 ≤ length front)
    × (every is_host_char front ≡ true)
    × (2 ≤ length top)
    × (every is_letter top ≡ true)

-- The expression: `[a-zA-Z0-9._%+\-]+@`, and a host or `localhost`.
abbrev pub IsAddress : Bytes → Type 0
IsAddress s =
    (local : Bytes) × (host : Bytes) × (s ≡ local ++ (b'@' ∷ host))
    × (1 ≤ length local)
    × (every is_local_char local ≡ true)
    × ((host ≡ codes "localhost") ⊎ IsHost host)

labels_sound :
    (h : Bytes) (o : Option (Bytes × Bytes))
    → cut b'.' (reverse h) ≡ o
    → match_labels o ≡ true
    → IsHost h
unfolding match_labels
labels_sound h none q e = absurd (cc e)
labels_sound h (some (top, rest)) q e =
    let (apart, _) = cut_sound b'.' (reverse h) top rest q in
    (
      reverse rest,
      reverse top,
      sym (reverse-reverse h) ∙ ap reverse apart ∙ reverse-middle b'.' top rest,
      (ground (arith, e, length-reverse rest, is_empty-length rest)),
      (ground (arith, e, every-reverse is_host_char rest)),
      (ground (arith, e, length-reverse top)),
      (ground (arith, e, every-reverse is_letter top)),
    )

match_host-IsHost : (h : Bytes) → (match_host h ≡ true) ↔ IsHost h
unfolding match_host match_labels
match_host-IsHost h = (
  (λ e. labels_sound h _ refl e),
  (λ (front, top, eq, n, host, m, letters).
      let bare =
        every-Lacks is_letter b'.' (reverse top) refl (every-reverse is_letter top ∙ letters) in
      let turned =
        ap (cut b'.') (ap reverse eq ∙ reverse-middle b'.' front top)
        ∙ cut-append b'.' (reverse top) (reverse front) bare in
      ap match_labels turned
      ∙ ground (
        arith,
        n,
        host,
        m,
        letters,
        length-reverse top,
        length-reverse front,
        is_empty-length (reverse front),
        every-reverse is_letter top,
        every-reverse is_host_char front,
      )),
)

parts_sound :
    (s : Bytes) (o : Option (Bytes × Bytes)) → cut b'@' s ≡ o → match_parts o ≡ true → IsAddress s
unfolding match_parts
parts_sound s none q e = absurd (cc e)
parts_sound s (some (local, host)) q e =
    let (apart, _) = cut_sound b'@' s local host q in
    (
      local,
      host,
      apart,
      (ground (arith, e, is_empty-length local)),
      (ground (arith, e)),
      (ground (arith, e, same_iff host (codes "localhost"), match_host-IsHost host)),
    )

-- A text matches the expression for addresses exactly when it is a local part of at least one allowed
-- character, an `@`, and a host, which is `localhost`, or at least one allowed character, a dot and
-- two or more letters.
pub match_email_iff : (s : Bytes) → (match_email s ≡ true) ↔ IsAddress s
unfolding match_email match_parts
match_email_iff s = (
  (λ e. parts_sound s _ refl e),
  (λ (local, host, eq, n, chars, h).
      let bare = every-Lacks is_local_char b'@' local refl chars in
      ap match_parts (ap (cut b'@') eq ∙ cut-append b'@' local host bare)
      ∙ ground (
        arith,
        n,
        chars,
        h,
        is_empty-length local,
        same_iff host (codes "localhost"),
        match_host-IsHost host,
      )),
)
