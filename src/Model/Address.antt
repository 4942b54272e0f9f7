-- ===== src/Model/Address.antt =====
-- The regular expression `emailRegex` of internal/app/domain/model/account.go: a matcher for it, and
-- in `Laws` what it matches.
pub mod Laws
use mathlib.Core.List.{reverse}
use easymail.Base.{
  ℕ, Bool, false, ◌&&◌, ◌||◌, not, Option, none, some, Bytes, codes, leb, ◌==◌, same, is_empty,
  length,
}
use easymail.Text.{cut, every}

pub is_letter : ℕ → Bool
is_letter c = leb b'a' c && leb c b'z' || leb b'A' c && leb c b'Z'

is_digit : ℕ → Bool
is_digit c = leb b'0' c && leb c b'9'

-- `[a-zA-Z0-9._%+\-]`.
pub is_local_char : ℕ → Bool
unfolding is_letter is_digit
is_local_char c =
    is_letter c || is_digit c || c == b'.' || c == b'_' || c == b'%' || c == b'+' || c == b'-'

-- `[a-zA-Z0-9.\-]`.
pub is_host_char : ℕ → Bool
unfolding is_letter is_digit
is_host_char c = is_letter c || is_digit c || c == b'.' || c == b'-'

-- The parts behind and before the last dot, each in reverse.
match_labels : Option (Bytes × Bytes) → Bool
unfolding every is_host_char is_letter
match_labels none = false
match_labels (some (top, rest)) =
    leb 2 (length top) && every is_letter top && not (is_empty rest) && every is_host_char rest

-- `[a-zA-Z0-9.\-]+\.[a-zA-Z]{2,}`: letters behind the last dot.
match_host : Bytes → Bool
unfolding match_labels cut
match_host h = match_labels (cut b'.' (reverse h))

-- The parts before and behind the first `@`.
match_parts : Option (Bytes × Bytes) → Bool
unfolding match_host is_local_char every
match_parts none = false
match_parts (some (local, host)) =
    not (is_empty local)
    && every is_local_char local
    && (same host (codes "localhost") || match_host host)

-- `emailRegex.MatchString(s)`.
unfoldable pub match_email : Bytes → Bool
unfolding match_parts cut
match_email s = match_parts (cut b'@' s)
