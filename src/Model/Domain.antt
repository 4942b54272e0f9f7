-- ===== src/Model/Domain.antt =====
-- internal/app/domain/model/domain.go: the operations on domains.
pub mod Index
pub mod Laws
pub mod Lookup
use easymail.Base.{
  ℕ, Bool, true, false, not, Option, none, some, List, [], ◌∷◌, Bytes, ◌==◌, same, if◌then◌else◌,
}
use easymail.Model.Gorm.{Gorm, Fetch, DbError, record_not_found, other_error}
use easymail.Model.Tables.{
  Domain, Account, Tables, Database, Failure, not_initialized, no_domain, domain_exists,
  database_error, Result, ok, failed,
}

-- A pointer and its error, where only a missing record is reported.
report : Fetch Domain → Result (Option Domain)
report (d, none) = ok d
report (d, some record_not_found) = failed no_domain
report (d, some other_error) = ok d

-- `Domain{}`, to which gorm also sets a nil pointer before it asks.
abbrev pub zero_domain : Domain
zero_domain = record {
  id = 0;
  name = [];
  description = [];
  active = false;
  deleted = false;
  create_time = 0;
  update_time = 0;
  delete_time = 0;
}

module _ (db : Database) where
  -- `FindDomainByID(id)`.
  unfoldable pub find_domain_by_id : ℕ → Tables → Result (Option Domain)
  unfolding report
  find_domain_by_id id t =
      if not db.connected
      then failed not_initialized
      else report (db.domains.scan (λ d. d.id == id) t.domains)

  -- `FindDomainByName(name)`.
  unfoldable pub find_domain_by_name : Bytes → Tables → Result (Option Domain)
  unfolding report
  find_domain_by_name name t =
      if not db.connected
      then failed not_initialized
      else report (db.domains.first (some zero_domain) (λ d. db.same_text d.name name) t.domains)

  -- Whether `FindDomainByName` returns a pointer that is not nil.
  is_taken : Result (Option Domain) → Bool
  is_taken (ok (some d)) = true
  is_taken (ok none) = false
  is_taken (failed e) = false

  -- The new table of domains, or the error of the call.
  with_domains : Tables → Option (List Domain) → Tables × Result (Unit {0})
  with_domains t none = (t, failed database_error)
  with_domains t (some ds) = (record t { domains = ds }, ok tt)

  -- `CreateDomain(req)`; the key is the database's to choose.
  unfoldable pub create_domain : ℕ → Bytes → Bytes → Tables → Tables × Result (Unit {0})
  unfolding find_domain_by_name is_taken with_domains
  create_domain now name description t =
      if not db.connected
      then (t, failed not_initialized)
      else if is_taken (find_domain_by_name name t)
      then (t, failed domain_exists)
      else with_domains t (
          db.domains.create
            (record {
              id = 0;
              name = name;
              description = description;
              active = true;
              deleted = false;
              create_time = now;
              update_time = now;
              delete_time = 0;
            })
            t.domains)

  -- What `ToggleDomainActive` does with the domain that it read.
  toggle_fetched : ℕ → ℕ → Tables → Fetch Domain → Tables × Result (Unit {0})
  unfolding with_domains
  toggle_fetched now id t (some d, none) = with_domains t (
      db.domains.updates (λ e. e.id == id)
        (λ e. record e { active = not d.active; update_time = now }) t.domains)
  toggle_fetched now id t (none, none) = (t, failed database_error)
  toggle_fetched now id t (d, some e) = (t, failed database_error)

  -- `ToggleDomainActive(id)`.
  unfoldable pub toggle_domain_active : ℕ → ℕ → Tables → Tables × Result (Unit {0})
  unfolding toggle_fetched
  toggle_domain_active now id t =
      if not db.connected
      then (t, failed not_initialized)
      else toggle_fetched now id t (db.domains.first (some zero_domain) (λ d. d.id == id) t.domains)

  -- `tx.Commit()`: the transaction's tables, or the tables of before.
  commit : Tables → Tables → Tables × Result (Unit {0})
  commit before after = if db.commit after then (after, ok tt) else (before, failed database_error)

  -- The rest of `PhysicalDeleteDomain` once the accounts are gone.
  delete_domain_row : ℕ → Tables → Tables → Tables × Result (Unit {0})
  unfolding commit
  delete_domain_row id before t = elim (db.domains.delete (λ d. d.id == id) t.domains) [
    | none ↦ (before, failed database_error)
    | some ds ↦ commit before (record t { domains = ds })
  ]

  -- `PhysicalDeleteDomain(id)`.
  unfoldable pub physical_delete_domain : ℕ → Tables → Tables × Result (Unit {0})
  unfolding delete_domain_row
  physical_delete_domain id t =
      if not db.connected
      then (t, failed not_initialized)
      else elim (db.accounts.delete (λ a. a.domain_id == id) t.accounts) [
        | none ↦ (t, failed database_error)
        | some as' ↦ delete_domain_row id t (record t { accounts = as' })
      ]

  -- `DeleteDomain(id)`, by a struct of which gorm takes the fields that are not zero.
  unfoldable pub delete_domain : ℕ → ℕ → Tables → Tables × Result (Unit {0})
  unfolding with_domains
  delete_domain now id t =
      if not db.connected
      then (t, failed not_initialized)
      else with_domains t (
          db.domains.updates_struct (λ d. d.id == id)
            (record {
              id = 0;
              name = [];
              description = [];
              active = false;
              deleted = true;
              create_time = 0;
              update_time = now;
              delete_time = 0;
            })
            t.domains)
