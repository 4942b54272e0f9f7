-- ===== src/Model/Account/Laws.antt =====
-- Who is let in by `Authorize`, and what `CreateAccount` does with a name that is taken.
use easymail.Base.{
  ◌==◌, ap, ℕ, ◌≡◌, ◌≢◌, refl, subst, sym, ◌⊎◌, inl, inr, Bool, true, false, not, Option, none,
  some, List, [], ◌∷◌, ◌++◌, arith, Bytes, Option-cases, Bool-cases, guard_passed,
}
use easymail.Text.{split_two, cut, to_lower}
use easymail.Text.Laws.{cut_sound}
use easymail.Model.Gorm.{Fetch, Has, IsQuery, record_not_found, other_error}
use easymail.Model.Tables.{Domain, Account, Tables, Database, Result, ok, failed}
use easymail.Model.Address.{match_email}
use easymail.Model.Domain.{zero_domain, find_domain_by_name}
use easymail.Model.Domain.Lookup.{some_inj, find_domain_by_name_sound}
use easymail.Model.Account.{
  zero_account, usable, settled, enabled, find_in_domain, find_parts, find_account_by_name,
  check_password, authorize,
}

-- The two parts of a split are around the separator.
split_two_sound : (sep : ℕ) (s a b : Bytes) → split_two sep s ≡ a ∷ b ∷ [] → s ≡ a ++ (sep ∷ b)
unfolding split_two cut
split_two_sound sep s a b e = elim (Option-cases (cut sep s)) [
  | inl n ↦ absurd (cc (n, e))
  | inr (p, q) ↦ ground (arith, cut_sound sep s p.0 p.1 q)
]

usable-some :
    (r : Result (Option Domain)) (d : Domain)
    → usable r ≡ some d
    → (r ≡ ok (some d)) × ((d.id == 0) ≡ false)
unfolding usable
usable-some (ok (some e)) d h = ground arith
usable-some (ok none) d h = ground arith
usable-some (failed e) d h = ground arith

zero_unusable : (d : Domain) → d ≡ zero_domain → (d.id == 0) ≡ false → ⊥
zero_unusable d z key = absurd (cc (ap (λ (x : Domain). x.id == 0) z, key))

settled-some :
    (f : Fetch Account) (a : Account)
    → settled f ≡ ok (some a)
    → (f ≡ (some a, none)) ⊎ (f ≡ (some a, some other_error))
unfolding settled
settled-some (o, none) a h = ground arith
settled-some (o, some record_not_found) a h = ground arith
settled-some (o, some other_error) a h = ground arith

-- The tests of a query that passed.
enabled_parts :
    (db : Database) (local : Bytes) (id : ℕ) (a : Account)
    → enabled db local id a ≡ true
    → (db.same_text a.username local ≡ true)
      × (a.domain_id ≡ id)
      × (a.active ≡ true)
      × (a.deleted ≡ false)
enabled_parts db local id a h = ground arith

-- An account of an existing domain that may be used, where the database compares the names with the
-- parts of the address as equal.
abbrev pub Listed : Database → Tables → Bytes → Account → Type 0
Listed db t address a =
    (d : Domain) × (local host : Bytes) × Has d t.domains
    × Has a t.accounts
    × (address ≡ local ++ (b'@' ∷ host))
    × (db.same_text a.username local ≡ true)
    × (db.same_text d.name host ≡ true)
    × (a.domain_id ≡ d.id)
    × (a.active ≡ true)
    × (a.deleted ≡ false)

module _ (db : Database) (t : Tables) (local host : Bytes) (d : Domain) (hd : Has d t.domains)
    (named : db.same_text d.name host ≡ true) where
  listed :
      (a : Account)
      → enabled db local d.id a ≡ true
      → Has a t.accounts
      → Listed db t (local ++ (b'@' ∷ host)) a
  listed a test there =
      let (u, i, on, kept) = enabled_parts db local d.id a test in
      (d, local, host, hd, there, refl, u, named, i, on, kept)

-- What a lookup may return: an account of an existing domain, or an empty one.
abbrev pub Found : Database → Tables → Bytes → Account → Type 0
Found db t address a = (a ≡ zero_account) ⊎ Listed db t address a

module _ (db : Database) (accounts : IsQuery db.accounts) (domains : IsQuery db.domains)
    (t : Tables) where
  in_domain_sound :
      (local host : Bytes) (d : Domain) (a : Account)
      → Has d t.domains
      → db.same_text d.name host ≡ true
      → find_in_domain db local (some d) t ≡ ok (some a)
      → Found db t (local ++ (b'@' ∷ host)) a
  unfolding find_in_domain
  in_domain_sound local host d a hd named e = elim (settled-some _ a e) [
    | inl f ↦
        let (r, at, test, there) =
          accounts.first_found (some zero_account) (enabled db local d.id) t.accounts f in
        let eq : r ≡ a = some_inj (sym at) in
        inr (
          listed db t local host d hd named a (subst (λ x. enabled db local d.id x ≡ true) eq test)
            (subst (λ x. Has x t.accounts) eq there))
    | inr f ↦
        inl (some_inj (accounts.first_failed zero_account (enabled db local d.id) t.accounts f))
  ]

  usable_sound :
      (local host : Bytes) (o : Option Domain) (a : Account)
      → usable (find_domain_by_name db host t) ≡ o
      → find_in_domain db local o t ≡ ok (some a)
      → Found db t (local ++ (b'@' ∷ host)) a
  unfolding find_in_domain
  usable_sound local host none a u e = absurd (cc e)
  usable_sound local host (some d) a u e =
      let (at, key) = usable-some _ d u in
      elim (find_domain_by_name_sound db domains host t d at) [
        | inl z ↦ absurd (zero_unusable d z key)
        | inr (hd, named) ↦ in_domain_sound local host d a hd named e
      ]

  parts_sound :
      (s : Bytes) (ps : List Bytes) (a : Account)
      → split_two b'@' s ≡ ps
      → find_parts db ps t ≡ ok (some a)
      → Found db t s a
  unfolding find_parts
  parts_sound s [] a p e = absurd (cc e)
  parts_sound s (x ∷ []) a p e = absurd (cc e)
  parts_sound s (x ∷ y ∷ []) a p e =
      subst (λ v. Found db t v a) (sym (split_two_sound b'@' s x y p)) (usable_sound x y _ a refl e)
  parts_sound s (x ∷ y ∷ z ∷ ps) a p e = absurd (cc e)

  find_sound :
      (username : Bytes) (a : Account)
      → find_account_by_name db username t ≡ ok (some a)
      → Found db t (to_lower username) a
  unfolding find_account_by_name
  find_sound username a e =
      let (_, e1) = guard_passed (not db.connected) (λ k. cc k) e in
      let (_, e2) = guard_passed (not (match_email username)) (λ k. cc k) e1 in
      parts_sound (to_lower username) _ a refl e2

  check_sound :
      (verify : Bytes → Bytes → Bool) (password : Bytes) (r : Result (Option Account)) (a : Account)
      → check_password verify password r ≡ some (ok a)
      → (r ≡ ok (some a)) × (verify a.password password ≡ true)
  unfolding check_password
  check_sound verify password (failed f) a e = absurd (cc e)
  check_sound verify password (ok none) a e = absurd (cc e)
  check_sound verify password (ok (some b)) a e = elim (Bool-cases (verify b.password password)) [
    | inl v ↦ ground (arith, v, e)
    | inr v ↦ absurd (ground (arith, v, e))
  ]

  -- If a query without an error has found a row that passes its test, and one that fails leaves its
  -- destination, an account that `Authorize` lets in is in the table of accounts, active and not deleted, the user
  -- name in lower case has two parts around an `@` which the database compares as equal to its name
  -- and to the name of its domain, which is in the table of domains, and the password passes bcrypt's comparison with the stored hash. The empty hash must
  -- pass with no password, as the account is empty when the database fails.
  pub authorize_sound :
      (verify : Bytes → Bytes → Bool) (username password : Bytes) (a : Account)
      → verify [] password ≡ false
      → authorize db verify username password t ≡ some (ok a)
      → Listed db t (to_lower username) a × (verify a.password password ≡ true)
  unfolding authorize
  authorize_sound verify username password a empty e =
      let (r, v) = check_sound verify password (find_account_by_name db username t) a e in
      elim (find_sound username a r) [ inl z ↦ absurd (cc (z, v, empty)) | inr l ↦ (l, v) ]

  settled_full :
      (local : Bytes) (id : ℕ) (f : Fetch Account)
      → db.accounts.first (some zero_account) (enabled db local id) t.accounts ≡ f
      → settled f ≢ ok none
  unfolding settled
  settled_full local id (o, none) e h =
      let (r, at, _, _) =
        accounts.first_found (some zero_account) (enabled db local id) t.accounts e in
      absurd (cc (at, h))
  settled_full local id (o, some record_not_found) e h = absurd (cc h)
  settled_full local id (o, some other_error) e h =
      absurd (cc (accounts.first_failed zero_account (enabled db local id) t.accounts e, h))

  in_domain_full : (local : Bytes) (o : Option Domain) → find_in_domain db local o t ≢ ok none
  unfolding find_in_domain
  in_domain_full local none h = absurd (cc h)
  in_domain_full local (some d) h = settled_full local d.id _ refl h

  parts_full : (ps : List Bytes) → find_parts db ps t ≢ ok none
  unfolding find_parts
  parts_full [] h = absurd (cc h)
  parts_full (x ∷ []) h = absurd (cc h)
  parts_full (x ∷ y ∷ []) h = in_domain_full x _ h
  parts_full (x ∷ y ∷ z ∷ ps) h = absurd (cc h)

  find_full : (username : Bytes) → find_account_by_name db username t ≢ ok none
  unfolding find_account_by_name
  find_full username e =
      let (_, e1) = guard_passed (not db.connected) (λ k. cc k) e in
      let (_, e2) = guard_passed (not (match_email username)) (λ k. cc k) e1 in parts_full _ e2

  check_returns :
      (verify : Bytes → Bytes → Bool) (password : Bytes) (r : Result (Option Account))
      → r ≢ ok none
      → check_password verify password r ≢ none
  unfolding check_password
  check_returns verify password (failed f) h e = absurd (cc e)
  check_returns verify password (ok none) h e = h refl
  check_returns verify password (ok (some a)) h e = absurd (cc e)

  -- `Authorize` never reads through a nil pointer: it returns an account or an error, whatever it is
  -- asked.
  pub authorize_returns :
      (verify : Bytes → Bytes → Bool) (username password : Bytes)
      → authorize db verify username password t ≢ none
  unfolding authorize
  authorize_returns verify username password =
      check_returns verify password (find_account_by_name db username t) (find_full username)
