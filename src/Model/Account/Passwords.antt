-- ===== src/Model/Account/Passwords.antt =====
-- `GenerateRandomString` of internal/app/domain/model/account.go.
use easymail.Base.{ℕ, zero, suc, List, [], ◌∷◌, Bytes, codes}

-- The runes that a text is drawn from.
abbrev source : Bytes
source = codes "abcdefghijklmnopqrstuvwxyzABCDEFGHIJKLMNOPQRSTUVWXYZ0123456789"

-- `source[i]`, for an index in range.
abbrev rune_at : List ℕ → ℕ → ℕ
rune_at [] i = 0
rune_at (c ∷ s) zero = c
rune_at (c ∷ s) (suc i) = rune_at s i

-- `GenerateRandomString(length)`, for the numbers that `rand.Intn` draws, as many as the length.
unfoldable pub generate_random_string : List ℕ → Bytes
generate_random_string [] = []
generate_random_string (i ∷ drawn) = rune_at source i ∷ generate_random_string drawn
