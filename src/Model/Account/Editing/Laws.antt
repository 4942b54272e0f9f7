-- ===== src/Model/Account/Editing/Laws.antt =====
-- What `EditAccount` leaves in the tables, and when it leaves its transaction open.
use easymail.Base.{
  ℕ, ◌≡◌, ◌≢◌, refl, ap, sym, ◌∙◌, ◌↔◌, ◌⊎◌, Bool, true, false, not, Option, none, some, List, [],
  ◌∷◌, arith, Bytes, ◌==◌, if◌then◌else◌, Option-cases, Bool-cases, inl, inr,
}
use easymail.Model.Gorm.{IsChange, changed}
use easymail.Model.Tables.{
  Account, Tables, Database, not_initialized, database_error, hashing_failed, ok, failed,
}
use easymail.Model.Account.{EditAccountRequest}
use easymail.Model.Account.Editing.{
  Ending, ended, left_open, Progress, running, not_begun, returned, sets_password, sets_quota,
  expiry, update_row, give_up, begin, edit_password, edit_quota, edit_expiry, finish, edit_account,
}

changed_twice :
    {R : Type 0} (p : R → Bool) (f g : R → R) (t : List R)
    → ((r : R) → p (f r) ≡ p r)
    → changed p g (changed p f t) ≡ changed p (λ r. g (f r)) t
changed_twice p f g [] keeps = refl
changed_twice p f g (r ∷ t) keeps = elim (Bool-cases (p r)) [
  | inl e ↦ ground (arith, e, keeps r, changed_twice p f g t keeps)
  | inr e ↦ ground (arith, e, changed_twice p f g t keeps)
]

changed_nothing : {R : Type 0} (p : R → Bool) (t : List R) → changed p (λ r. r) t ≡ t
changed_nothing p [] = refl
changed_nothing p (r ∷ t) = ground (arith, changed_nothing p t)

-- The account behind the edit.
abbrev pub edited : (Bytes → Option Bytes) → EditAccountRequest → Account → Account
edited generate req a = record a {
  password =
      if sets_password req
      then elim (generate req.password) [ none ↦ a.password | some hash ↦ hash ]
      else a.password;
  storage_quota = if sets_quota req then req.storage_quota_number else a.storage_quota;
  password_expire_time = expiry req;
}

-- An edit either fails and changes nothing, or succeeds and has edited the account only.
abbrev pub Edits : (Account → Account) → ℕ → Tables → Tables × Ending → Type 0
Edits f id t (u, e) =
    ((e ≢ ended (ok tt)) × (u ≡ t))
    ⊎ ((e ≡ ended (ok tt))
        × (u.accounts ≡ changed (λ a. a.id == id) f t.accounts)
        × (u.domains ≡ t.domains)
        × (u.emails ≡ t.emails))

-- The rows of a running transaction are those of before with one change, and none returned with
-- success.
abbrev At : ℕ → List Account → (Account → Account) → Progress → Type 0
At id rows f (running rows') = rows' ≡ changed (λ a. a.id == id) f rows
At id rows f not_begun = Unit
At id rows f (returned e) = e ≢ ended (ok tt)

-- An update of a running transaction, from the result of the call.
after_update :
    (id : ℕ) (rows rows' : List Account) (f g : Account → Account) (o : Option (List Account))
    → ((a : Account) → (f a).id ≡ a.id)
    → rows' ≡ changed (λ a. a.id == id) f rows
    → ((new : List Account) → o ≡ some new → new ≡ changed (λ a. a.id == id) g rows')
    → At id rows
        (λ a. g (f a))
        (elim o [ none ↦ returned (ended (failed database_error)) | some new ↦ running new ])
after_update id rows rows' f g none keeps h u = ground arith
after_update id rows rows' f g (some new) keeps h u =
    u new refl
    ∙ ap (changed (λ a. a.id == id) g) h
    ∙ changed_twice (λ (a : Account). a.id == id) f g rows (λ a. ap (λ i. i == id) (keeps a))

module _ (db : Database) (accounts : IsChange db.accounts) (generate : Bytes → Option Bytes)
    (req : EditAccountRequest) where
  update_row-At :
      (rows : List Account) (f g : Account → Account) (p : Progress)
      → ((a : Account) → (f a).id ≡ a.id)
      → At req.id rows f p
      → At req.id rows (λ a. g (f a)) (update_row db generate req g p)
  unfolding update_row
  update_row-At rows f g (returned e) keeps h = h
  update_row-At rows f g not_begun keeps h = ground arith
  update_row-At rows f g (running rows') keeps h =
      after_update req.id rows rows' f g _ keeps h (λ new e. accounts.updates_rows _ _ rows' e)

  password-At :
      (rows : List Account) (b : Bool) (o : Option Bytes)
      → At req.id rows
          (λ a. record a {
            password = if b then elim o [ none ↦ a.password | some hash ↦ hash ] else a.password;
          })
          (if b
            then elim o [
              | none ↦ returned (left_open hashing_failed)
              | some hash ↦
                  update_row db generate req (λ a. record a { password = hash }) (running rows)
            ]
            else running rows)
  password-At rows true none = ground arith
  password-At rows true (some hash) =
      update_row-At rows (λ a. a) (λ a. record a { password = hash }) (running rows) (λ a. refl)
        (sym (changed_nothing (λ (a : Account). a.id == req.id) rows))
  password-At rows false o = sym (changed_nothing (λ (a : Account). a.id == req.id) rows)

  -- A transaction that was not begun fails.
  lost-At :
      (rows : List Account) (b : Bool) (o : Option Bytes) (f : Account → Account)
      → At req.id rows f (
          if b
          then elim o [
            | none ↦ returned (ended (failed hashing_failed))
            | some hash ↦ returned (ended (failed database_error))
          ]
          else not_begun)
  lost-At rows true none f = ground arith
  lost-At rows true (some hash) f = ground arith
  lost-At rows false o f = tt

  quota-At :
      (rows : List Account) (b : Bool) (f : Account → Account) (p : Progress)
      → ((a : Account) → (f a).id ≡ a.id)
      → At req.id rows f p
      → At req.id rows
          (λ a. record (f a) {
            storage_quota = if b then req.storage_quota_number else (f a).storage_quota;
          })
          (if b
            then update_row db generate req
                (λ a. record a { storage_quota = req.storage_quota_number })
                p
            else p)
  quota-At rows true f p keeps h =
      update_row-At rows f (λ a. record a { storage_quota = req.storage_quota_number }) p keeps h
  quota-At rows false f p keeps h = h

  steps-At :
      (rows : List Account) (b : Bool)
      → At req.id rows (edited generate req) (
          edit_expiry db generate req (
            edit_quota db generate req
              (edit_password db generate req (if b then running rows else not_begun))))
  unfolding edit_expiry edit_quota edit_password give_up update_row
  steps-At rows true =
      update_row-At rows _ (λ a. record a { password_expire_time = expiry req }) _ (λ a. refl)
        (quota-At rows (sets_quota req) _ _ (λ a. refl)
          (password-At rows (sets_password req) (generate req.password)))
  steps-At rows false =
      update_row-At rows _ (λ a. record a { password_expire_time = expiry req }) _ (λ a. refl)
        (quota-At rows (sets_quota req)
          (λ a. record a {
            password =
                if sets_password req
                then elim (generate req.password) [ none ↦ a.password | some hash ↦ hash ]
                else a.password;
          })
          _ (λ a. refl) (lost-At rows (sets_password req) (generate req.password) _))

  committed-Edits :
      (f : Account → Account) (t u : Tables) (c : Bool)
      → u.accounts ≡ changed (λ a. a.id == req.id) f t.accounts
      → u.domains ≡ t.domains
      → u.emails ≡ t.emails
      → Edits f req.id t (if c then (u, ended (ok tt)) else (t, ended (failed database_error)))
  committed-Edits f t u true a d e = inr (refl, a, d, e)
  committed-Edits f t u false a d e = inl ((ground arith), refl)

  finish-Edits :
      (f : Account → Account) (t : Tables) (p : Progress)
      → At req.id t.accounts f p
      → Edits f req.id t (finish db generate req t p)
  unfolding finish
  finish-Edits f t (returned e) h = inl (h, refl)
  finish-Edits f t not_begun h = inl ((ground arith), refl)
  finish-Edits f t (running rows) h =
      committed-Edits f t (record t { accounts = rows }) (db.commit (record t { accounts = rows }))
        h refl refl

  guarded-Edits :
      (f : Account → Account) (t : Tables) (c : Bool) (x : Tables × Ending)
      → Edits f req.id t x
      → Edits f req.id t (if not c then (t, ended (failed not_initialized)) else x)
  guarded-Edits f t true x h = h
  guarded-Edits f t false x h = inl ((ground arith), refl)

  -- If an update that succeeds has changed the rows that it names and no others, `EditAccount` sets, of the one account, the hash of a password of 6 to 64 bytes, a quota from -1 to
  -- 999999 and the expiry, NULL for the zero time, all of them or none: a call that does not succeed
  -- leaves every table as it was.
  pub edit_account_atomic :
      (t : Tables) → Edits (edited generate req) req.id t (edit_account db generate req t)
  unfolding edit_account begin
  edit_account_atomic t =
      guarded-Edits (edited generate req) t db.connected _
        (finish-Edits (edited generate req) t _ (steps-At t.accounts db.begins))

-- Whether the transaction is still open when the function returns.
abbrev pub is_open : Ending → Bool
is_open (ended r) = false
is_open (left_open f) = true

abbrev ends_open : Progress → Bool
ends_open (running rows) = false
ends_open not_begun = false
ends_open (returned e) = is_open e

module _ (db : Database) (generate : Bytes → Option Bytes) (req : EditAccountRequest) where
  update_row-open :
      (f : Account → Account) (p : Progress)
      → ends_open (update_row db generate req f p) ≡ ends_open p
  unfolding update_row
  update_row-open f (returned e) = refl
  update_row-open f not_begun = refl
  update_row-open f (running rows) =
      ground (arith, Option-cases (db.accounts.updates (λ a. a.id == req.id) f rows))

  quota-open : (p : Progress) → ends_open (edit_quota db generate req p) ≡ ends_open p
  unfolding edit_quota
  quota-open p =
      ground (arith, update_row-open (λ a. record a { storage_quota = req.storage_quota_number }) p)

  password-open :
      (rows : List Account) (b : Bool)
      → (ends_open (edit_password db generate req (if b then running rows else not_begun)) ≡ true)
        ↔ ((b ≡ true) × (sets_password req ≡ true) × (generate req.password ≡ none))
  unfolding edit_password give_up
  password-open rows true = elim (Option-cases (generate req.password)) [
    | inl n ↦ ground arith
    | inr (hash, s) ↦
        ground (arith, s, update_row-open (λ a. record a { password = hash }) (running rows))
  ]
  password-open rows false = elim (Option-cases (generate req.password)) [
    | inl n ↦ ground arith
    | inr (hash, s) ↦
        ground (arith, s, update_row-open (λ a. record a { password = hash }) not_begun)
  ]

  finish-open : (t : Tables) (p : Progress) → is_open ((finish db generate req t p).1) ≡ ends_open p
  unfolding finish
  finish-open t (returned e) = refl
  finish-open t not_begun = refl
  finish-open t (running rows) = ground arith

  guarded-open :
      (c : Bool) (t : Tables) (x : Tables × Ending)
      → (is_open ((if not c then (t, ended (failed not_initialized)) else x).1) ≡ true)
        ↔ ((c ≡ true) × (is_open (x.1) ≡ true))
  guarded-open true t x = ground arith
  guarded-open false t x = ground arith

  -- `EditAccount` returns with its transaction open exactly when the database is initialised, the
  -- transaction can be begun, the request has a password of 6 to 64 bytes, and the hashing of it fails: that one error path has no
  -- rollback.
  pub edit_account_leaks :
      (t : Tables)
      → (is_open ((edit_account db generate req t).1) ≡ true) ↔ (
          (db.connected ≡ true)
          × (db.begins ≡ true)
          × (sets_password req ≡ true)
          × (generate req.password ≡ none))
  unfolding edit_account edit_expiry begin
  edit_account_leaks t =
      let p = edit_password db generate req (if db.begins then running t.accounts else not_begun) in
      let e =
        finish-open t (edit_expiry db generate req (edit_quota db generate req p))
        ∙ update_row-open (λ a. record a { password_expire_time = expiry req })
            (edit_quota db generate req p)
        ∙ quota-open p in
      ground (
        arith,
        e,
        password-open t.accounts db.begins,
        guarded-open db.connected t
            (finish db generate req t (edit_expiry db generate req (edit_quota db generate req p))),
      )
