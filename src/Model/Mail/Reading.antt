-- ===== src/Model/Mail/Reading.antt =====
-- `GetMailUsage` and `CreateMail` of internal/app/domain/model/email.go. enmime is not part of the
-- repository: a mail in the making is the list of the builder's calls, and `build` gives its bytes.
use easymail.Base.{
  ℕ, Bool, not, Option, none, some, List, [], ◌∷◌, ◌++◌, Bytes, codes, is_empty, map, ◌==◌,
  if◌then◌else◌,
}
use easymail.Base.Int.{ℤ}
use easymail.Model.Tables.{Email, Result, ok, failed, not_initialized, database_error}
use easymail.Storage.Reading.{Address}

-- `Attachment`.
pub record Attachment : Type 0 where
  pub name : Bytes
  pub content_type : Bytes
  pub bytes : Bytes

-- The calls of enmime's builder.
pub data BuilderCall : Type 0 where
  from to : Bytes → Bytes → BuilderCall
  subject : Bytes → BuilderCall
  header : Bytes → Bytes → BuilderCall
  text html : Bytes → BuilderCall
  attachment : Bytes → Bytes → Bytes → BuilderCall

-- A part that is left out when it is empty.
abbrev unless_empty : Bytes → (Bytes → BuilderCall) → List BuilderCall
unless_empty s call = if is_empty s then [] else call s ∷ []

-- The calls that `CreateMail` makes on the builder, in their order.
unfoldable pub composed :
    Address → List Address → Bytes → Bytes → Bytes → List Attachment → List BuilderCall
composed sender receipts title body page attaches =
    from sender.name sender.address
    ∷ subject title
    ∷ header (codes "X-Mailer") (codes "easymail 1.0.0")
    ∷ (map (λ a. to a.name a.address) receipts
        ++ (unless_empty body text
            ++ (unless_empty page html
                ++ map (λ a. attachment a.bytes a.content_type a.name) attaches)))

-- `CreateMail(sender, receipts, subject, text, html, attaches)`; none for an error of the building or
-- of the encoding.
unfoldable pub create_mail :
    (List BuilderCall → Option Bytes)
    → Address
    → List Address
    → Bytes
    → Bytes
    → Bytes
    → List Attachment
    → Option Bytes
unfolding composed
create_mail build sender receipts title body page attaches =
    build (composed sender receipts title body page attaches)

-- What a scan into an int64 makes of a sum: a NULL, the sum of no rows, is an error.
usage : Option (Option ℤ) → Result ℤ
usage none = failed database_error
usage (some none) = failed database_error
usage (some (some n)) = ok n

-- `GetMailUsage(accID)`, where `sum` is `SELECT SUM(size)` for a test.
unfoldable pub get_mail_usage :
    Bool → ((Email → Bool) → List Email → Option (Option ℤ)) → ℕ → List Email → Result ℤ
unfolding usage
get_mail_usage connected sum account_id t =
    if not connected
    then failed not_initialized
    else usage (sum (λ e. e.account_id == account_id) t)
