-- ===== src/Model/Mail/Laws.antt =====
-- The operations on one mail, against each other.
use easymail.Base.{
  ℕ, ◌≡◌, ◌≢◌, refl, ap, sym, ◌∙◌, false, ◌&&◌, not, Option, none, some, List, [], ◌∷◌, arith,
  guard_passed,
}
use easymail.Model.Gorm.{IsChange, changed}
use easymail.Model.Tables.{
  ReadStatus, unread, web_read, imap_read, Email, Tables, Database, Result, ok,
}
use easymail.Model.Mail.{is_mail, is_unread, with_emails, mark_read}

with_emails_ok :
    (t u : Tables) (o : Option (List Email))
    → with_emails t o ≡ (u, ok tt)
    → (o ≡ some u.emails) × (u ≡ record t { emails = u.emails })
unfolding with_emails
with_emails_ok t u none e = absurd (cc (ap (λ r. r.1) e))
with_emails_ok t u (some es) e = (
  ap (λ (r : Tables × Result (Unit {0})). some (r.0.emails)) e,
  sym (ap (λ (r : Tables × Result (Unit {0})). r.0) e)
      ∙ ap (λ (r : Tables × Result (Unit {0})). record t { emails = r.0.emails }) e,
)

-- The rows after a mail was marked.
abbrev pub marked_rows : ℕ → ℕ → ReadStatus → List Email → List Email
marked_rows account_id id status =
    changed (λ e. is_mail account_id id e && is_unread e.read_status)
      (λ e. record e { read_status = status })

-- A mark that means read stays as it is.
marked_once :
    (account_id id : ℕ) (first second : ReadStatus) (t : List Email)
    → is_unread first ≡ false
    → marked_rows account_id id second (marked_rows account_id id first t)
      ≡ marked_rows account_id id first t
marked_once account_id id first second [] h = refl
marked_once account_id id first second (e ∷ t) h =
    ground (arith, marked_once account_id id first second t h)

read_mark : (s : ReadStatus) → s ≢ unread → is_unread s ≡ false
read_mark unread h = absurd (h refl)
read_mark web_read h = refl
read_mark imap_read h = refl

module _ (db : Database) (emails : IsChange db.emails) (t u v : Tables) (account_id id : ℕ) where
  mark_read_rows :
      (status : ReadStatus) (x y : Tables)
      → mark_read db account_id id status x ≡ (y, ok tt)
      → y ≡ record x { emails = marked_rows account_id id status x.emails }
  unfolding mark_read
  mark_read_rows status x y e =
      let (call, same_rest) =
        with_emails_ok x y _ ((guard_passed (not db.connected) (λ k. cc (ap (λ r. r.1) k)) e).1) in
      same_rest ∙ ap (λ es. record x { emails = es }) (emails.updates_rows _ _ x.emails call)

  -- If an update that succeeds has changed the rows that it names and no others, a mail that was marked
  -- read, by a status other than unread, keeps that mark: a second `MarkRead`, from whichever source, changes
  -- nothing at all.
  pub mark_read_once :
      (first second : ReadStatus)
      → first ≢ unread
      → mark_read db account_id id first t ≡ (u, ok tt)
      → mark_read db account_id id second u ≡ (v, ok tt)
      → v ≡ u
  mark_read_once first second r e1 e2 =
      let m1 = mark_read_rows first t u e1 in
      let m2 = mark_read_rows second u v e2 in
      let rows = ap (λ (x : Tables). x.emails) m1 in
      m2
      ∙ ap (λ es. record u { emails = es })
          (ap (marked_rows account_id id second) rows
            ∙ marked_once account_id id first second t.emails (read_mark first r)
            ∙ sym rows)
