-- ===== src/Model/Domain/Lookup.antt =====
-- What the lookups of domains find.
use easymail.Base.{◌⊎◌, inl, inr, true, ◌≡◌, refl, subst, not, none, some, Bytes, guard_passed}
use easymail.Model.Gorm.{Fetch, Has, IsQuery, record_not_found, other_error}
use easymail.Model.Tables.{Domain, Tables, Database, ok}
use easymail.Model.Domain.{zero_domain, report, find_domain_by_name}

pub some_inj : {R : Type 0} {a b : R} → some a ≡ some b → a ≡ b
some_inj e = cc e

-- What such a lookup may return.
abbrev pub Located : Database → Bytes → Tables → Domain → Type 0
Located db name t d = (d ≡ zero_domain) ⊎ (Has d t.domains × (db.same_text d.name name ≡ true))

found_by_name :
    (db : Database) (queries : IsQuery db.domains) (name : Bytes) (t : Tables) (d : Domain)
    (f : Fetch Domain)
    → db.domains.first (some zero_domain) (λ e. db.same_text e.name name) t.domains ≡ f
    → report f ≡ ok (some d)
    → Located db name t d
unfolding report
found_by_name db queries name t d (o, none) e h =
    let (r, at, test, there) =
      queries.first_found (some zero_domain) (λ x. db.same_text x.name name) t.domains e in
    let eq : r ≡ d = some_inj (cc (at, h)) in
    inr
      (subst (λ x. Has x t.domains) eq there, subst (λ x. db.same_text x.name name ≡ true) eq test)
found_by_name db queries name t d (o, some record_not_found) e h = absurd (cc h)
found_by_name db queries name t d (o, some other_error) e h = inl (
    some_inj (cc (queries.first_failed zero_domain (λ x. db.same_text x.name name) t.domains e, h)))

-- A domain that a lookup by name returns is in the table, under a name that the database compares as
-- equal, or it is the zero domain of a query that failed.
pub find_domain_by_name_sound :
    (db : Database) (queries : IsQuery db.domains) (name : Bytes) (t : Tables) (d : Domain)
    → find_domain_by_name db name t ≡ ok (some d)
    → Located db name t d
unfolding find_domain_by_name
find_domain_by_name_sound db queries name t d h =
    found_by_name db queries name t d _ refl ((guard_passed (not db.connected) (λ k. cc k) h).1)
