-- ===== src/Trace/Util.antt =====
-- internal/pkg/tracer/sessiontrace/util.go: `Trunc` and `MaskEmail`.
use easymail.Base.{
  ℕ, zero, suc, ap, ◌≤◌, ◌<◌, ◌≡◌, refl, ◌||◌, List, [], ◌∷◌, ◌++◌, arith, Bytes, codes, leb, ◌==◌,
  if◌then◌else◌, is_empty, length, take, length-take, Lacks,
}
use easymail.Base.Int.{ℤ, pos, negsuc, ◌≤ℤ◌}
use easymail.Text.{to_lower, trim_space, split_two}
use easymail.Text.Laws.{split_two-append, split_two_whole}

-- `Trunc(s, max)`.
unfoldable pub trunc : Bytes → ℤ → Bytes
trunc s (negsuc n) = s
trunc s (pos n) = if n == 0 || leb (length s) n then s else take n s

-- The local part as it is shown.
mask_local : Bytes → Bytes
mask_local local = if leb (length local) 2 then codes "***" else take 2 local ++ codes "***"

-- The branches of `MaskEmail` on the number of parts.
mask_parts : List Bytes → Bytes
unfolding mask_local
mask_parts (local ∷ domain ∷ []) = mask_local local ++ b'@' ∷ domain
mask_parts _ = codes "***"

-- `MaskEmail(email)`.
unfoldable pub mask_email : Bytes → Bytes
unfolding mask_parts
mask_email email =
    let e = trim_space (to_lower email) in if is_empty e then [] else mask_parts (split_two b'@' e)

take_fits : (n : ℕ) (s : Bytes) → length s ≤ n → take n s ≡ s
take_fits zero [] h = refl
take_fits zero (c ∷ s) h = absurd (omega arith)
take_fits (suc n) [] h = refl
take_fits (suc n) (c ∷ s) h = ap (λ t. c ∷ t) (take_fits n s (omega arith))

-- A limit of zero or less leaves the text alone. A positive limit keeps the first bytes up to that
-- number, so the result is never longer than the limit.
pub trunc_bounded :
    (s : Bytes) (max : ℤ) (n : ℕ)
    → (max ≤ℤ pos 0 → trunc s max ≡ s)
      × (0 < n → (trunc s (pos n) ≡ take n s) × (length (trunc s (pos n)) ≤ n))
unfolding trunc
trunc_bounded s (pos m) n =
    (λ h. ground arith, λ h. (ground (arith, take_fits n s), ground (arith, length-take n s)))
trunc_bounded s (negsuc m) n =
    (λ h. refl, λ h. (ground (arith, take_fits n s), ground (arith, length-take n s)))

-- An address with a local part before its first `@` is masked by parts.
mask_email_parts :
    (email local domain : Bytes)
    → trim_space (to_lower email) ≡ local ++ b'@' ∷ domain
    → Lacks b'@' local
    → mask_email email ≡ mask_local local ++ b'@' ∷ domain
unfolding mask_email
mask_email_parts email [] domain shape h = rw (shape, split_two-append b'@' [] domain h)
mask_email_parts email (c ∷ local) domain shape h =
    rw (shape, split_two-append b'@' (c ∷ local) domain h)

mask_local_long : (a b c : ℕ) (rest : Bytes) → mask_local (a ∷ b ∷ c ∷ rest) ≡ a ∷ b ∷ codes "***"
unfolding mask_local
mask_local_long a b c rest = ground arith

-- Of an address whose lower-cased, trimmed form is a local part of at least three bytes without an
-- `@`, then an `@` and a domain, the mask shows the first two bytes of the local part and the
-- domain: two such addresses that differ only in the rest of their local parts have one mask.
mask_email_hides :
    (email : Bytes) (a b c : ℕ) (rest domain : Bytes)
    → trim_space (to_lower email) ≡ (a ∷ b ∷ c ∷ rest) ++ b'@' ∷ domain
    → Lacks b'@' (a ∷ b ∷ c ∷ rest)
    → mask_email email ≡ a ∷ b ∷ codes "***@" ++ domain
mask_email_hides email a b c rest domain shape h =
    rw (mask_email_parts email (a ∷ b ∷ c ∷ rest) domain shape h, mask_local_long a b c rest)

-- A shorter local part is hidden whole, and a text without an `@` is hidden whole unless its
-- trimmed form is empty.
pub mask_email_short :
    (email local domain : Bytes)
    → Lacks b'@' local
    → (length local ≤ 2
        → trim_space (to_lower email) ≡ local ++ b'@' ∷ domain
        → mask_email email ≡ codes "***@" ++ domain)
      × (trim_space (to_lower email) ≡ local
          → mask_email email ≡ (if is_empty local then [] else codes "***"))
mask_email_short email local domain h = (
  λ short shape. rw (mask_email_parts email local domain shape h) (hidden local short),
  whole local h,
)
  where
    hidden : (l : Bytes) → length l ≤ 2 → mask_local l ++ b'@' ∷ domain ≡ codes "***@" ++ domain
    hidden l short = unfold mask_local in ground arith

    whole :
        (l : Bytes)
        → Lacks b'@' l
        → trim_space (to_lower email) ≡ l
        → mask_email email ≡ (if is_empty l then [] else codes "***")
    whole [] hl shape = unfold mask_email in rw shape
    whole (c ∷ l) hl shape = unfold mask_email in rw (shape, split_two_whole b'@' (c ∷ l) hl)
