-- ===== src/Dovecot/Base64.antt =====
-- `base64.StdEncoding`: the decoder that the server calls, and the encoder of a client. The decoder
-- passes over line ends, wants whole groups of four, and padding only at the very end.
use easymail.Base.{
  ℕ, ◌+◌, ◌-◌, ◌*◌, ◌/◌, ◌%◌, ◌<◌, ◌≡◌, ◌≢◌, refl, ap, ap₂, ◌∙◌, ◌&&◌, ◌||◌, not, Option, none,
  some, [], ◌∷◌, arith, Bytes, ltb, leb, ◌==◌, if◌then◌else◌, keep, All, Lacks,
}

-- The value of a character of the alphabet.
sextet : ℕ → Option ℕ
sextet c =
    if leb b'A' c && leb c b'Z'
    then some (c - b'A')
    else if leb b'a' c && leb c b'z'
    then some (c - b'a' + 26)
    else if leb b'0' c && leb c b'9'
    then some (c - b'0' + 52)
    else if c == b'+'
    then some 62
    else if c == b'/'
    then some 63
    else none

-- The byte that the first two, the middle two and the last two characters of a group spell.
first_byte : ℕ → ℕ → ℕ
first_byte p q = p * 4 + q / 16

second_byte : ℕ → ℕ → ℕ
second_byte q r = q % 16 * 16 + r / 4

third_byte : ℕ → ℕ → ℕ
third_byte r s = r % 4 * 64 + s

infixl 5 ◌>>=◌
abbrev ◌>>=◌ : {A B : Type 0} → Option A → (A → Option B) → Option B
none >>= f = none
some a >>= f = f a

-- The bytes of whole groups; the padding ends the text.
decode_groups : Bytes → Option Bytes
unfolding sextet first_byte second_byte third_byte
decode_groups [] = some []
decode_groups (a ∷ []) = none
decode_groups (a ∷ b ∷ []) = none
decode_groups (a ∷ b ∷ c ∷ []) = none
decode_groups (a ∷ b ∷ c ∷ d ∷ s) =
    let rest = decode_groups s in
    if d == b'='
    then elim s [
      | [] ↦ if c == b'=' then (do p ← sextet a; q ← sextet b; some (first_byte p q ∷ [])) else (do
        p ← sextet a
        q ← sextet b
        r ← sextet c
        some (first_byte p q ∷ second_byte q r ∷ []))
      | _ ↦ none
    ]
    else (do
      p ← sextet a
      q ← sextet b
      r ← sextet c
      t ← sextet d
      more ← rest
      some (first_byte p q ∷ second_byte q r ∷ third_byte r t ∷ more))

-- `DecodeString(s)`.
unfoldable pub decode_string : Bytes → Option Bytes
unfolding decode_groups
decode_string s = decode_groups (keep (λ c. not (c == 10 || c == 13)) s)

-- The character of a value below 64.
letter : ℕ → ℕ
letter n =
    if ltb n 26
    then n + b'A'
    else if ltb n 52
    then n - 26 + b'a'
    else if ltb n 62
    then n - 52 + b'0'
    else if n == 62
    then b'+'
    else b'/'

-- The encoder.
unfoldable pub encode : Bytes → Bytes
unfolding letter
encode [] = []
encode (a ∷ []) = letter (a / 4) ∷ letter (a % 4 * 16) ∷ b'=' ∷ b'=' ∷ []
encode (a ∷ b ∷ []) =
    letter (a / 4) ∷ letter (a % 4 * 16 + b / 16) ∷ letter (b % 16 * 4) ∷ b'=' ∷ []
encode (a ∷ b ∷ c ∷ s) =
    letter (a / 4)
    ∷ letter (a % 4 * 16 + b / 16)
    ∷ letter (b % 16 * 4 + c / 64)
    ∷ letter (c % 64)
    ∷ encode s

sextet-letter : (n : ℕ) → n < 64 → sextet (letter n) ≡ some n
unfolding sextet letter
sextet-letter n h = ground arith

letter_bare : (n : ℕ) → (letter n ≢ b'=') × (letter n ≢ 10) × (letter n ≢ 13)
unfolding letter
letter_bare n = ground arith

group_full :
    (p q r t : ℕ) (s : Bytes)
    → p < 64
    → q < 64
    → r < 64
    → t < 64
    → decode_groups (letter p ∷ letter q ∷ letter r ∷ letter t ∷ s) ≡ (
        decode_groups s >>= λ more. some (first_byte p q ∷ second_byte q r ∷ third_byte r t ∷ more))
unfolding decode_groups
group_full p q r t s hp hq hr ht = ground (
  arith,
  letter_bare t,
  sextet-letter p hp,
  sextet-letter q hq,
  sextet-letter r hr,
  sextet-letter t ht,
)

group_two :
    (p q r : ℕ)
    → p < 64
    → q < 64
    → r < 64
    → decode_groups (letter p ∷ letter q ∷ letter r ∷ b'=' ∷ [])
      ≡ some (first_byte p q ∷ second_byte q r ∷ [])
unfolding decode_groups
group_two p q r hp hq hr =
    ground (arith, letter_bare r, sextet-letter p hp, sextet-letter q hq, sextet-letter r hr)

group_one :
    (p q : ℕ)
    → p < 64
    → q < 64
    → decode_groups (letter p ∷ letter q ∷ b'=' ∷ b'=' ∷ []) ≡ some (first_byte p q ∷ [])
unfolding decode_groups
group_one p q hp hq = ground (arith, sextet-letter p hp, sextet-letter q hq)

abbrev pub IsByte : ℕ → Type 0
IsByte c = c < 256

bytes_back :
    (a b c : ℕ)
    → a < 256
    → b < 256
    → c < 256
    → (first_byte (a / 4) (a % 4 * 16 + b / 16) ≡ a)
      × (second_byte (a % 4 * 16 + b / 16) (b % 16 * 4 + c / 64) ≡ b)
      × (third_byte (b % 16 * 4 + c / 64) (c % 64) ≡ c)
unfolding first_byte second_byte third_byte
bytes_back a b c ha hb hc = omega arith

decode-groups-encode : (s : Bytes) → All IsByte s → decode_groups (encode s) ≡ some s
unfolding encode
decode-groups-encode [] h = unfold decode_groups in refl
decode-groups-encode (a ∷ []) h =
    group_one (a / 4) (a % 4 * 16) (omega arith) (omega arith)
    ∙ ap (λ t. some (t ∷ [])) (unfold first_byte in omega arith)
decode-groups-encode (a ∷ b ∷ []) h =
    group_two (a / 4) (a % 4 * 16 + b / 16) (b % 16 * 4) (omega arith) (omega arith) (omega arith)
    ∙ unfold first_byte second_byte in ap₂ (λ t u. some (t ∷ u ∷ [])) (omega arith) (omega arith)
decode-groups-encode (a ∷ b ∷ c ∷ s) h =
    group_full (a / 4) (a % 4 * 16 + b / 16) (b % 16 * 4 + c / 64) (c % 64) (encode s) (omega arith)
      (omega arith) (omega arith) (omega arith)
    ∙ ap
        (λ m. m >>= λ more. some (
          first_byte (a / 4) (a % 4 * 16 + b / 16)
          ∷ second_byte (a % 4 * 16 + b / 16) (b % 16 * 4 + c / 64)
          ∷ third_byte (b % 16 * 4 + c / 64) (c % 64)
          ∷ more))
        (decode-groups-encode s h.1.1.1)
    ∙ cc (
      (bytes_back a b c h.0 h.1.0 h.1.1.0).0,
      (bytes_back a b c h.0 h.1.0 h.1.1.0).1,
      (bytes_back a b c h.0 h.1.0 h.1.1.0).2,
    )

letter_kept :
    (n : ℕ) (s : Bytes)
    → keep (λ c. not (c == 10 || c == 13)) (letter n ∷ s)
      ≡ letter n ∷ keep (λ c. not (c == 10 || c == 13)) s
letter_kept n s = ground (arith, letter_bare n)

keep-encode : (s : Bytes) → keep (λ c. not (c == 10 || c == 13)) (encode s) ≡ encode s
unfolding encode
keep-encode [] = refl
keep-encode (a ∷ []) =
    letter_kept (a / 4) (letter (a % 4 * 16) ∷ b'=' ∷ b'=' ∷ [])
    ∙ ap (λ t. letter (a / 4) ∷ t) (letter_kept (a % 4 * 16) (b'=' ∷ b'=' ∷ []))
keep-encode (a ∷ b ∷ []) =
    letter_kept (a / 4) (letter (a % 4 * 16 + b / 16) ∷ letter (b % 16 * 4) ∷ b'=' ∷ [])
    ∙ ap (λ t. letter (a / 4) ∷ t)
        (letter_kept (a % 4 * 16 + b / 16) (letter (b % 16 * 4) ∷ b'=' ∷ [])
          ∙ ap (λ t. letter (a % 4 * 16 + b / 16) ∷ t) (letter_kept (b % 16 * 4) (b'=' ∷ [])))
keep-encode (a ∷ b ∷ c ∷ s) =
    letter_kept (a / 4)
      (letter (a % 4 * 16 + b / 16) ∷ letter (b % 16 * 4 + c / 64) ∷ letter (c % 64) ∷ encode s)
    ∙ ap (λ t. letter (a / 4) ∷ t)
        (letter_kept (a % 4 * 16 + b / 16)
            (letter (b % 16 * 4 + c / 64) ∷ letter (c % 64) ∷ encode s)
          ∙ ap (λ t. letter (a % 4 * 16 + b / 16) ∷ t)
              (letter_kept (b % 16 * 4 + c / 64) (letter (c % 64) ∷ encode s)
                ∙ ap (λ t. letter (b % 16 * 4 + c / 64) ∷ t)
                    (letter_kept (c % 64) (encode s)
                      ∙ ap (λ t. letter (c % 64) ∷ t) (keep-encode s))))

-- What a client encodes, the server decodes.
pub decode-encode : (s : Bytes) → All IsByte s → decode_string (encode s) ≡ some s
unfolding decode_string
decode-encode s h = ap decode_groups (keep-encode s) ∙ decode-groups-encode s h

-- No encoded text holds a tab.
letter_tab : (n : ℕ) → letter n ≢ 9
unfolding letter
letter_tab n = ground arith

pub encode-Lacks_tab : (s : Bytes) → Lacks 9 (encode s)
unfolding encode
encode-Lacks_tab [] = tt
encode-Lacks_tab (a ∷ []) =
    (letter_tab (a / 4), (letter_tab (a % 4 * 16), (omega arith, (omega arith, tt))))
encode-Lacks_tab (a ∷ b ∷ []) = (
  letter_tab (a / 4),
  (letter_tab (a % 4 * 16 + b / 16), (letter_tab (b % 16 * 4), (omega arith, tt))),
)
encode-Lacks_tab (a ∷ b ∷ c ∷ s) = (
  letter_tab (a / 4),
  (
    letter_tab (a % 4 * 16 + b / 16),
    (letter_tab (b % 16 * 4 + c / 64), (letter_tab (c % 64), encode-Lacks_tab s)),
  ),
)
