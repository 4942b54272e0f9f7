-- ===== src/Model/Configure/Tests.antt =====
-- The configuration tree on a table in memory.
use easymail.Base.{
  ◌+◌, ◌≡◌, refl, ap, subst, Bool, true, Option, none, some, List, [], ◌∷◌, ◌++◌, arith, Bytes,
  codes, length, Bool-cases, inl, inr,
}
use easymail.Model.Gorm.{Gorm, IsQuery}
use easymail.Model.Memory.{found_row, memory, memory-IsQuery}
use easymail.Model.Domain.Lookup.{some_inj}
use easymail.Model.Configure.{
  data_string, Configure, node, get_configure_by_name, get_configure_by_names, create_configure,
}
use easymail.Model.Configure.Laws.{IsOrdered, create_configure_found}

-- A table that numbers the rows that are inserted.
abbrev numbered : Gorm Configure
numbered = record (memory (λ patch c. c)) {
  create = λ r t. some (t ++ (record r { id = length t + 1 } ∷ []));
}

found_row-append :
    {R : Type 0} (d : Option R) (p : R → Bool) (t u : List R) (r : R)
    → found_row d p t ≡ (some r, none)
    → found_row d p (t ++ u) ≡ (some r, none)
unfolding found_row
found_row-append d p [] u r h = absurd (cc (ap (λ x. x.1) h))
found_row-append d p (x ∷ t) u r h = elim (Bool-cases (p x)) [
  | inl e ↦ ground (arith, e, h)
  | inr e ↦ ground (arith, e, h, found_row-append d p t u r)
]

numbered-IsQuery : IsQuery numbered
numbered-IsQuery = record {
  first_found = λ d p t e. (memory-IsQuery (λ patch c. c)).first_found d p t e;
  first_failed = λ z p t e. (memory-IsQuery (λ patch c. c)).first_failed z p t e;
}

still_found :
    (d : Option Configure) (p : Configure → Bool) (row : Configure) (t u : List Configure)
    (r : Configure)
    → numbered.create row t ≡ some u
    → found_row d p t ≡ (some r, none)
    → found_row d p u ≡ (some r, none)
still_found d p row t u r made found =
    subst (λ v. found_row d p v ≡ (some r, none)) (some_inj made) (found_row-append d p t _ r found)

numbered-IsOrdered : IsOrdered numbered
numbered-IsOrdered = record {
  first_stays = λ d p row t made found. still_found d p row t _ _ made found;
}

abbrev port_path : List Bytes
port_path = codes "easymail" ∷ codes "lmtp" ∷ codes "port" ∷ []

abbrev tree : List Configure
tree = (create_configure true numbered 7 (codes "24") [] data_string port_path []).0

abbrev port : Configure
port = record {
  id = 3;
  name = codes "port";
  value = codes "24";
  data_type = data_string;
  parent_id = some 2;
  private = true;
  create_time = 7;
  update_time = 7;
  description = [];
}

created :
    create_configure true numbered 7 (codes "24") [] data_string port_path [] ≡ (tree, node port)
unfolding create_configure get_configure_by_name found_row
created = refl

create_configure_found_example : get_configure_by_names true numbered port_path tree ≡ node port
create_configure_found_example =
    create_configure_found true numbered numbered-IsQuery numbered-IsOrdered 7 (codes "24") []
      data_string (codes "easymail") (codes "lmtp") (codes "port") [] tree port created
