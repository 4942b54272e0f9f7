-- ===== src/Text.antt =====
-- What the source uses of Go's `strings` and `bytes` packages, over lists of bytes: Split, SplitN,
-- Join, Trim, TrimSpace, ToLower and the searches. `to_lower` is exact on ASCII text; a byte of a
-- longer character is left alone. `trim_space` knows every white space character of Unicode.
pub mod Laws
pub mod Terminated
pub mod Path
use mathlib.Core.List.{reverse}
use easymail.Base.Int.{ℤ, pos, negsuc}
use easymail.Base.{
  ℕ, zero, suc, ◌+◌, ◌-◌, ◌/◌, ◌%◌, Bool, true, false, ◌&&◌, ◌||◌, Option, none, some, List, [],
  ◌∷◌, ◌++◌, map, Bytes, ltb, leb, ◌==◌, same, if◌then◌else◌, length, drop,
}

-- The first element of a list of parts gets one more byte in front.
abbrev pub extend : ℕ → List Bytes → List Bytes
extend c [] = (c ∷ []) ∷ []
extend c (p ∷ ps) = (c ∷ p) ∷ ps

-- `strings.Split(s, sep)` for a separator of one byte. There is always a part.
unfoldable pub split : ℕ → Bytes → List Bytes
split sep [] = [] ∷ []
split sep (c ∷ s) = let rest = split sep s in if c == sep then [] ∷ rest else extend c rest

-- The text before and behind the first `sep`.
unfoldable pub cut : ℕ → Bytes → Option (Bytes × Bytes)
cut sep [] = none
cut sep (c ∷ s) =
    let rest = cut sep s in
    if c == sep then some ([], s) else elim rest [ none ↦ none | some (a, b) ↦ some (c ∷ a, b) ]

-- `strings.SplitN(s, sep, 2)`.
unfoldable pub split_two : ℕ → Bytes → List Bytes
unfolding cut
split_two sep s = elim (cut sep s) [ none ↦ s ∷ [] | some (a, b) ↦ a ∷ b ∷ [] ]

-- `strings.SplitN(s, sep, 3)`.
unfoldable pub split_three : ℕ → Bytes → List Bytes
unfolding cut split_two
split_three sep s = elim (cut sep s) [ none ↦ s ∷ [] | some (a, b) ↦ a ∷ split_two sep b ]

-- `strings.Join(parts, sep)`.
unfoldable pub join : Bytes → List Bytes → Bytes
join sep [] = []
join sep (p ∷ []) = p
join sep (p ∷ q ∷ ps) = p ++ (sep ++ join sep (q ∷ ps))

-- `strings.HasPrefix(s, p)`.
unfoldable pub has_prefix : Bytes → Bytes → Bool
has_prefix s [] = true
has_prefix [] (_ ∷ _) = false
has_prefix (c ∷ s) (d ∷ p) = c == d && has_prefix s p

-- The text before and behind the first occurrence of a longer separator.
unfoldable pub cut_on : Bytes → Bytes → Option (Bytes × Bytes)
unfolding has_prefix
cut_on sep [] = if has_prefix [] sep then some ([], []) else none
cut_on sep (c ∷ s) =
    let rest = cut_on sep s in
    if has_prefix (c ∷ s) sep
    then some ([], drop (length sep) (c ∷ s))
    else elim rest [ none ↦ none | some (a, b) ↦ some (c ∷ a, b) ]

-- The rounds of `strings.Split(s, sep)` for a longer separator; `skip` bytes of a separator are
-- still to be passed over.
unfoldable pub split_from : Bytes → Bytes → ℕ → List Bytes
unfolding has_prefix
split_from sep [] skip = [] ∷ []
split_from sep (c ∷ s) (suc skip) = split_from sep s skip
split_from sep (c ∷ s) zero = elim (has_prefix (c ∷ s) sep) [
  | true ↦ [] ∷ split_from sep s (length sep - 1)
  | false ↦ extend c (split_from sep s zero)
]

-- `strings.Split(s, sep)`, for a separator that is not empty.
unfoldable pub split_on : Bytes → Bytes → List Bytes
unfolding split_from
split_on sep s = split_from sep s 0

-- `unicode.ToLower` on an ASCII byte.
abbrev pub lower : ℕ → ℕ
lower c = if leb b'A' c && leb c b'Z' then c + 32 else c

-- `strings.ToLower`.
unfoldable pub to_lower : Bytes → Bytes
to_lower = map lower

-- The trailing bytes of the white space characters behind 0xE2: U+2000 to U+200A, U+2028, U+2029,
-- U+202F and U+205F.
is_wide_space : ℕ → ℕ → Bool
is_wide_space b c =
    (b == 0x80 && (leb 0x80 c && leb c 0x8A || c == 0xA8 || c == 0xA9 || c == 0xAF))
    || (b == 0x81 && c == 0x9F)

is_ascii_space : ℕ → Bool
is_ascii_space c = leb 9 c && leb c 13 || c == 32

-- White space of three bytes: U+1680, U+3000 and those behind 0xE2.
is_space_triple : ℕ → ℕ → ℕ → Bool
unfolding is_wide_space
is_space_triple a b c =
    (a == 0xE1 && b == 0x9A && c == 0x80)
    || (a == 0xE2 && is_wide_space b c)
    || (a == 0xE3 && b == 0x80 && c == 0x80)

-- White space of two bytes: U+0085 and U+00A0.
is_space_pair : ℕ → ℕ → Bool
is_space_pair a b = a == 0xC2 && (b == 0x85 || b == 0xA0)

-- How many bytes the white space character at the front takes; 0 if there is none.
space_front : Bytes → ℕ
unfolding is_ascii_space is_space_pair is_space_triple
space_front [] = 0
space_front (a ∷ []) = if is_ascii_space a then 1 else 0
space_front (a ∷ b ∷ []) = if is_ascii_space a then 1 else if is_space_pair a b then 2 else 0
space_front (a ∷ b ∷ c ∷ s) =
    if is_ascii_space a
    then 1
    else if is_space_pair a b
    then 2
    else if is_space_triple a b c
    then 3
    else 0

-- The same for a reversed text, whose characters show their last byte first.
space_back : Bytes → ℕ
unfolding is_ascii_space is_space_pair is_space_triple
space_back [] = 0
space_back (a ∷ []) = if is_ascii_space a then 1 else 0
space_back (b ∷ a ∷ []) = if is_ascii_space b then 1 else if is_space_pair a b then 2 else 0
space_back (c ∷ b ∷ a ∷ s) =
    if is_ascii_space c
    then 1
    else if is_space_pair b c
    then 2
    else if is_space_triple a b c
    then 3
    else 0

-- Drops `skip` bytes, and then characters as long as the text begins with white space.
strip : (Bytes → ℕ) → Bytes → ℕ → Bytes
strip width [] skip = []
strip width (c ∷ s) (suc skip) = strip width s skip
strip width (c ∷ s) zero = elim (width (c ∷ s)) [ zero ↦ c ∷ s | suc n ↦ strip width s n ]

-- `strings.TrimSpace`.
unfoldable pub trim_space : Bytes → Bytes
unfolding strip space_front space_back
trim_space s = reverse (strip space_back (reverse (strip space_front s 0)) 0)

-- `strings.TrimLeft` for a set of one byte.
unfoldable pub trim_left : ℕ → Bytes → Bytes
trim_left b [] = []
trim_left b (c ∷ s) = let rest = trim_left b s in if c == b then rest else c ∷ s

-- `strings.TrimRight` for a set of one byte.
unfoldable pub trim_right : ℕ → Bytes → Bytes
unfolding trim_left
trim_right b s = reverse (trim_left b (reverse s))

-- `strings.Trim` for a set of one byte.
unfoldable pub trim : ℕ → Bytes → Bytes
unfolding trim_right
trim b s = trim_right b (trim_left b s)

-- `strings.ReplaceAll(s, old, "")` and `bytes.ReplaceAll` with `old` of two bytes.
unfoldable pub replace_pair : ℕ → ℕ → Bytes → Bytes → Bytes
replace_pair a b new [] = []
replace_pair a b new (c ∷ []) = c ∷ []
replace_pair a b new (c ∷ d ∷ s) = elim (c == a && d == b) [
  | true ↦ new ++ replace_pair a b new s
  | false ↦ c ∷ replace_pair a b new (d ∷ s)
]

-- Every byte passes the test.
unfoldable pub every : (ℕ → Bool) → Bytes → Bool
every p [] = true
every p (c ∷ s) = p c && every p s

-- The digits of `n` in front of `out`, one for each unit of fuel.
write_decimal : ℕ → ℕ → Bytes → Bytes
write_decimal zero n out = out
write_decimal (suc f) n out =
    let rest = write_decimal f (n / 10) ((b'0' + n % 10) ∷ out) in
    if ltb n 10 then (b'0' + n) ∷ out else rest

-- `strconv.Itoa` and `%d`, for a number that is not negative. A 64-bit number has at most twenty
-- digits.
unfoldable pub decimal : ℕ → Bytes
unfolding write_decimal
decimal n = write_decimal 20 n []

-- `%d`.
unfoldable pub decimal_ℤ : ℤ → Bytes
unfolding decimal
decimal_ℤ (pos n) = decimal n
decimal_ℤ (negsuc n) = b'-' ∷ decimal (n + 1)
