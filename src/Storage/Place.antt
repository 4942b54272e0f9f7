-- ===== src/Storage/Place.antt =====
-- Where `Save` puts a mail.
use easymail.Base.{ℕ, ◌%◌, ◌≡◌, ap, ◌∙◌, List, [], ◌∷◌, ◌++◌, Bytes, All, All-append, append_assoc}
use easymail.Text.{join, decimal}
use easymail.Text.Path.{join_path}
use easymail.Text.Path.Laws.{IsPlain, rooted_path, join_path-below, decimal-IsPlain}
use easymail.Model.Tables.{Domain, Account}
use easymail.Storage.{directory}

-- The names below the base that lead to the directory.
abbrev steps : Domain → Account → ℕ → List Bytes
steps d a h = d.name ∷ a.username ∷ decimal (h % 32) ∷ decimal (h % 64) ∷ []

steps-IsPlain :
    (d : Domain) (a : Account) (h : ℕ)
    → IsPlain d.name
    → IsPlain a.username
    → All IsPlain (steps d a h)
steps-IsPlain d a h domain user =
    (domain, (user, (decimal-IsPlain (h % 32), (decimal-IsPlain (h % 64), tt))))

directory_lem :
    (b : Bytes) (bs : List Bytes) (d : Domain) (a : Account) (h : ℕ)
    → All IsPlain (b ∷ bs)
    → IsPlain d.name
    → IsPlain a.username
    → directory (rooted_path (b ∷ bs)) d a h ≡ rooted_path (b ∷ bs ++ steps d a h)
unfolding directory join
directory_lem b bs d a h base domain user =
    join_path-below b d.name bs (a.username ∷ decimal (h % 32) ∷ decimal (h % 64) ∷ [])
      (All-append IsPlain (b ∷ bs) (steps d a h) base (steps-IsPlain d a h domain user))

-- When the base directory is a path from the root along plain names, and the domain's name, the
-- account's name and the job are plain, a mail is put exactly five names below the base: the domain,
-- the account, the number modulo 32 and modulo 64, and the job. A name is plain if it is not empty,
-- not `.` or `..`, and has no slash.
pub directory-below :
    (b : Bytes) (bs : List Bytes) (d : Domain) (a : Account) (h : ℕ) (job : Bytes)
    → All IsPlain (b ∷ bs)
    → IsPlain d.name
    → IsPlain a.username
    → IsPlain job
    → join_path (directory (rooted_path (b ∷ bs)) d a h ∷ job ∷ [])
      ≡ rooted_path
          (b ∷ bs ++ (d.name ∷ a.username ∷ decimal (h % 32) ∷ decimal (h % 64) ∷ job ∷ []))
unfolding join
directory-below b bs d a h job base domain user name =
    ap (λ p. join_path (p ∷ job ∷ [])) (directory_lem b bs d a h base domain user)
    ∙ join_path-below b job (bs ++ steps d a h) [] (
        All-append IsPlain (b ∷ bs ++ steps d a h) (job ∷ [])
          (All-append IsPlain (b ∷ bs) (steps d a h) base (steps-IsPlain d a h domain user))
          (name, tt))
    ∙ ap rooted_path (append_assoc (b ∷ bs) (steps d a h) (job ∷ []))
