-- ===== src/Model/Listing/Memory.antt =====
-- A finder over a table that is held in memory, for the tests: it keeps the order of the rows.
use easymail.Base.{refl, sym, subst, Option, none, some, List, keep, length, take, drop}
use easymail.Base.Int.{ℤ, pos, negsuc}
use easymail.Model.Domain.Lookup.{some_inj}
use easymail.Model.Listing.{Finder, SameRows, IsFinder, IsCount}

abbrev skipped : {R : Type 0} → Option ℤ → List R → List R
skipped none t = t
skipped (some (pos k)) t = drop k t
skipped (some (negsuc k)) t = t

abbrev limited : {R : Type 0} → Option ℤ → List R → List R
limited none t = t
limited (some (pos n)) t = take n t
limited (some (negsuc n)) t = t

abbrev pub memory_find : {R : Type 0} → Finder R
memory_find s t = some (limited s.limit (skipped s.offset (keep s.rows t)))

pub memory_find-IsFinder : {R : Type 0} → IsFinder {R = R} memory_find
memory_find-IsFinder {R} = record {
  found_all = λ p order t e. subst (λ xs. SameRows xs (keep p t)) (some_inj e) (λ q. refl);
  found_page = λ p order k n t e. (keep p t, (λ q. refl), sym (some_inj e));
}

pub memory-IsCount : {R : Type 0} → IsCount {R = R} (λ p t. some (length (keep p t)))
memory-IsCount = record { counted = λ p t e. sym (some_inj e) }
