-- ===== src/Model/Domain/Laws.antt =====
-- What the operations on domains leave in the tables.
use easymail.Base.{
  ℕ, ◌<◌, ◌≡◌, ◌≢◌, refl, ap, sym, fun_ext, ◌⊎◌, ◌∙◌, Bool, true, false, not, Option, none, some,
  List, [], map, arith, ◌==◌, if◌then◌else◌, keep, is_empty, inl, inr,
}
use easymail.Model.Gorm.{IsChange, IsStructChange, changed}
use easymail.Model.Tables.{
  Domain, Account, Tables, Database, not_initialized, database_error, Result, ok, failed,
}
use easymail.Model.Domain.{
  with_domains, commit, delete_domain_row, physical_delete_domain, delete_domain,
}

-- The fields of `patch` that are not zero, over those of `d`.
abbrev pub overlay_domain : Domain → Domain → Domain
overlay_domain patch d = record {
  id = if patch.id == 0 then d.id else patch.id;
  name = if is_empty patch.name then d.name else patch.name;
  description = if is_empty patch.description then d.description else patch.description;
  active = if patch.active then true else d.active;
  deleted = if patch.deleted then true else d.deleted;
  create_time = if patch.create_time == 0 then d.create_time else patch.create_time;
  update_time = if patch.update_time == 0 then d.update_time else patch.update_time;
  delete_time = if patch.delete_time == 0 then d.delete_time else patch.delete_time;
}

-- A call on the table of domains that succeeds changes that table only.
with_domains_ok :
    (db : Database) (t u : Tables) (o : Option (List Domain))
    → with_domains db t o ≡ (u, ok tt)
    → (o ≡ some u.domains) × (u.accounts ≡ t.accounts) × (u.emails ≡ t.emails)
unfolding with_domains
with_domains_ok db t u none e = absurd (cc (ap (λ r. r.1) e))
with_domains_ok db t u (some ds) e = (
  ap (λ (r : Tables × Result (Unit {0})). some (r.0.domains)) e,
  ap (λ (r : Tables × Result (Unit {0})). r.0.accounts) (sym e),
  ap (λ (r : Tables × Result (Unit {0})). r.0.emails) (sym e),
)

-- An operation that succeeds has passed the test of the connection.
connected_ok :
    {x y z : Tables × Result (Unit {0})} (c : Bool)
    → (x ≡ z → ⊥)
    → (if not c then x else y) ≡ z
    → y ≡ z
connected_ok true h e = e
connected_ok false h e = absurd (h e)

marked :
    (now id : ℕ) (d : Domain)
    → 0 < now
    → (if d.id == id
        then overlay_domain
            (record {
              id = 0;
              name = [];
              description = [];
              active = false;
              deleted = true;
              create_time = 0;
              update_time = now;
              delete_time = 0;
            })
            d
        else d)
      ≡ (if d.id == id then record d { deleted = true; update_time = now } else d)
marked now id d h = ground arith

-- The domain and its accounts are gone, and nothing else.
abbrev pub Purged : ℕ → Tables → Tables → Type 0
Purged id t u =
    (u.accounts ≡ keep (λ a. not (a.domain_id == id)) t.accounts)
    × (u.domains ≡ keep (λ d. not (d.id == id)) t.domains)
    × (u.emails ≡ t.emails)

-- A call either fails and changes nothing, or succeeds and leaves a purged database.
abbrev pub Purges : ℕ → Tables → Tables × Result (Unit {0}) → Type 0
Purges id t (u, r) = ((r ≢ ok tt) × (u ≡ t)) ⊎ ((r ≡ ok tt) × Purged id t u)

module _ (db : Database) where
  -- What a `DeleteDomain` that succeeds at a time other than 0 leaves, if an update by a struct sets the
  -- fields that are not zero: the domain is marked deleted and its time is set, and its
  -- `active` is what it was. An update by a struct passes over the field that is false, so the domain
  -- does not become inactive. Nothing else changes.
  pub delete_domain_keeps_active :
      (structs : IsStructChange db.domains overlay_domain) (now id : ℕ) (t u : Tables)
      → 0 < now
      → delete_domain db now id t ≡ (u, ok tt)
      → (u.domains
          ≡ changed
              (λ d. d.id == id)
              (λ d. record d { deleted = true; update_time = now })
              t.domains)
        × (u.accounts ≡ t.accounts)
        × (u.emails ≡ t.emails)
  unfolding delete_domain
  delete_domain_keeps_active structs now id t u h e =
      let (call, same_accounts, same_emails) =
        with_domains_ok db t u _ (connected_ok db.connected (λ k. cc (ap (λ r. r.1) k)) e) in
      (
        structs.updates_struct_rows _ _ t.domains call
            ∙ ap (λ f. map f t.domains) (fun_ext (λ d. marked now id d h)),
        same_accounts,
        same_emails,
      )

  Purged-commit :
      (id : ℕ) (t after : Tables) (c : Bool)
      → Purged id t after
      → Purges id t (if c then (after, ok tt) else (t, failed database_error))
  Purged-commit id t after true h = inr (refl, h)
  Purged-commit id t after false h = inl ((ground arith), refl)

  Purged-row :
      (id : ℕ) (t : Tables) (as' : List Account) (o : Option (List Domain))
      → as' ≡ keep (λ a. not (a.domain_id == id)) t.accounts
      → ((ds : List Domain) → o ≡ some ds → ds ≡ keep (λ d. not (d.id == id)) t.domains)
      → Purges id t (elim o [
        | none ↦ (t, failed database_error)
        | some ds ↦ commit db t (record t { accounts = as'; domains = ds })
      ])
  unfolding commit
  Purged-row id t as' none ha hd = inl ((ground arith), refl)
  Purged-row id t as' (some ds) ha hd =
      Purged-commit id t (record t { accounts = as'; domains = ds })
        (db.commit (record t { accounts = as'; domains = ds })) (ha, hd ds refl, refl)

  Purged-accounts :
      (id : ℕ) (t : Tables) (o : Option (List Account))
      → IsChange db.domains
      → ((as' : List Account) → o ≡ some as' → as' ≡ keep (λ a. not (a.domain_id == id)) t.accounts)
      → Purges id t (elim o [
        | none ↦ (t, failed database_error)
        | some as' ↦ delete_domain_row db id t (record t { accounts = as' })
      ])
  unfolding delete_domain_row
  Purged-accounts id t none changes ha = inl ((ground arith), refl)
  Purged-accounts id t (some as') changes ha =
      Purged-row id t as' (db.domains.delete (λ d. d.id == id) t.domains) (ha as' refl)
        (λ ds e. changes.delete_rows (λ d. d.id == id) t.domains e)

  Purged-connected :
      (id : ℕ) (t : Tables) (c : Bool) (x : Tables × Result (Unit {0}))
      → Purges id t x
      → Purges id t (if not c then (t, failed not_initialized) else x)
  Purged-connected id t true x h = h
  Purged-connected id t false x h = inl ((ground arith), refl)

  -- If a deletion that succeeds has removed the rows that it names and no others,
  -- `PhysicalDeleteDomain` removes the domain and its accounts, or it fails and leaves every table as
  -- it was. On either outcome it leaves all mails, against its comment, which has it remove those of the
  -- domain.
  pub physical_delete_atomic :
      (accounts : IsChange db.accounts) (domains : IsChange db.domains) (id : ℕ) (t : Tables)
      → Purges id t (physical_delete_domain db id t)
  unfolding physical_delete_domain
  physical_delete_atomic accounts domains id t = Purged-connected id t db.connected _ (
      Purged-accounts id t (db.accounts.delete (λ a. a.domain_id == id) t.accounts) domains
        (λ as' e. accounts.delete_rows (λ a. a.domain_id == id) t.accounts e))
