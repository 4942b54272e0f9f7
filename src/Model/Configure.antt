-- ===== src/Model/Configure.antt =====
-- internal/app/domain/model/configure.go: the tree of configuration nodes. A row names its parent by
-- key, and a root has no parent.
pub mod Listing
pub mod Laws
pub mod Tests
use easymail.Base.{
  ℕ, Bool, true, false, ◌&&◌, ◌||◌, not, Option, none, some, List, [], ◌∷◌, Bytes, ◌==◌, same,
  if◌then◌else◌,
}
use easymail.Model.Gorm.{Gorm, Fetch, DbError}

-- `DataType`.
pub data DataType : Type 0 where
  data_string data_int data_float data_bool data_null data_child : DataType

-- `Configure`; the key of the parent is none for NULL.
pub record Configure : Type 0 where
  pub id : ℕ
  pub name : Bytes
  pub value : Bytes
  pub data_type : DataType
  pub parent_id : Option ℕ
  pub private : Bool
  pub create_time : ℕ
  pub update_time : ℕ
  pub description : Bytes

-- `Configure{}`.
abbrev pub zero_configure : Configure
zero_configure = record {
  id = 0;
  name = [];
  value = [];
  data_type = data_string;
  parent_id = some 0;
  private = false;
  create_time = 0;
  update_time = 0;
  description = [];
}

-- The errors of these operations.
pub data Failure : Type 0 where
  not_initialized wrong_length not_found insert_failed : Failure

-- A pointer and an error.
pub data Answer : Type 0 where
  node : Configure → Answer
  absent : Answer
  refused : Failure → Answer

-- The condition on the parent, for the key `pid`.
abbrev pub is_child : ℕ → Option ℕ → Bool
is_child pid none = pid == 0
is_child pid (some p) = p == pid

-- The query of `GetConfigureByName`.
abbrev pub named_under : Bytes → ℕ → Configure → Bool
named_under name pid c = same c.name name && is_child pid c.parent_id

-- The destination is a struct, so that a query without an error answers with a node.
read : Fetch Configure → Answer
read (some c, none) = node c
read (none, none) = node zero_configure
read (c, some e) = refused not_found

-- The row that `CreateRoot` inserts.
abbrev pub root_row : ℕ → Bytes → Configure
root_row now name = record {
  id = 0;
  name = name;
  value = [];
  data_type = data_child;
  parent_id = none;
  private = true;
  create_time = now;
  update_time = now;
  description = [];
}

-- The row that `CreateNode` inserts; `private` takes its default.
abbrev pub node_row : ℕ → Configure → Bytes → Bytes → DataType → Bytes → Configure
node_row now parent name value type description = record {
  id = 0;
  name = name;
  value = value;
  data_type = type;
  parent_id = some parent.id;
  private = true;
  create_time = now;
  update_time = now;
  description = description;
}

-- The next level, below a node that was found.
below :
    (Configure → List Configure → List Configure × Answer)
    → List Configure × Answer
    → List Configure × Answer
below next (t, node c) = next c t
below next (t, absent) = (t, absent)
below next (t, refused e) = (t, refused e)

module _ (connected : Bool) (g : Gorm Configure) where
  -- `GetConfigureByID(id)`, where a scan of a struct that finds no row leaves it as it was.
  unfoldable pub get_configure_by_id : ℕ → List Configure → Answer
  unfolding read
  get_configure_by_id id t =
      if not connected then refused not_initialized else read (g.scan (λ c. c.id == id) t)

  -- `GetConfigureByName(name, pid)`.
  unfoldable pub get_configure_by_name : Bytes → ℕ → List Configure → Answer
  unfolding read
  get_configure_by_name name pid t =
      if not connected
      then refused not_initialized
      else read (g.first (some zero_configure) (named_under name pid) t)

  -- `CreateRoot(name)`: the new table, or none for an error.
  create_root : ℕ → Bytes → List Configure → Option (List Configure)
  create_root now name t = if not connected then none else g.create (root_row now name) t

  -- `CreateNode(parent, name, value, dataType, description)`, of which only the error is used.
  create_node :
      ℕ → Configure → Bytes → Bytes → DataType → Bytes → List Configure → Option (List Configure)
  create_node now parent name value type description t =
      if not connected then none else g.create (node_row now parent name value type description) t

  -- `GetConfigureByNames(names...)`: the walk from the key `pid`, with the node found so far.
  walk : Answer → ℕ → List Bytes → List Configure → Answer
  unfolding get_configure_by_name
  walk found pid [] t = found
  walk found pid (name ∷ names) t = elim (get_configure_by_name name pid t) [
    | node c ↦ walk (node c) c.id names t
    | absent ↦ absent
    | refused e ↦ refused e
  ]

  unfoldable pub get_configure_by_names : List Bytes → List Configure → Answer
  unfolding walk
  get_configure_by_names names t = walk absent 0 names t

  -- The second lookup of a level of `CreateConfigure`, behind the insertion.
  after_insert : Bytes → ℕ → List Configure → Option (List Configure) → List Configure × Answer
  unfolding get_configure_by_name
  after_insert name pid t none = (t, refused insert_failed)
  after_insert name pid t (some u) = (u, get_configure_by_name name pid u)

  -- What the first lookup leads to.
  after_lookup :
      Bytes
      → ℕ
      → (List Configure → Option (List Configure))
      → List Configure
      → Answer
      → List Configure × Answer
  unfolding after_insert
  after_lookup name pid make t (node c) = (t, get_configure_by_name name pid t)
  after_lookup name pid make t absent = after_insert name pid t (make t)
  after_lookup name pid make t (refused e) = after_insert name pid t (make t)

  -- One level of `CreateConfigure`: look the node up, insert it when it is not found, look it up again.
  ensure :
      Bytes
      → ℕ
      → (List Configure → Option (List Configure))
      → List Configure
      → List Configure × Answer
  unfolding after_lookup
  ensure name pid make t = after_lookup name pid make t (get_configure_by_name name pid t)

  -- The first level of `CreateConfigure`.
  ensure_root : ℕ → Bytes → List Configure → List Configure × Answer
  unfolding ensure create_root
  ensure_root now name t = ensure name 0 (create_root now name) t

  -- A level below a node.
  ensure_child :
      ℕ → Bytes → Bytes → DataType → Bytes → Configure → List Configure → List Configure × Answer
  unfolding ensure create_node
  ensure_child now value description type name parent t =
      ensure name parent.id (create_node now parent name value type description) t

  -- The two levels below the root.
  descend :
      ℕ
      → Bytes
      → Bytes
      → DataType
      → Bytes
      → Bytes
      → Configure
      → List Configure
      → List Configure × Answer
  unfolding ensure_child below
  descend now value description type b c root t =
      below (ensure_child now value description type c)
        (ensure_child now [] description data_child b root t)

  -- `CreateConfigure(value, description, dateType, names...)`.
  unfoldable pub create_configure :
      ℕ → Bytes → Bytes → DataType → List Bytes → List Configure → List Configure × Answer
  unfolding ensure_root descend below
  create_configure now value description type (a ∷ b ∷ c ∷ []) t =
      below (descend now value description type b c) (ensure_root now a t)
  create_configure now value description type _ t = (t, refused wrong_length)

  -- `UpdateConfigure(node)`: the new table, or none for an error.
  unfoldable pub update_configure : ℕ → Configure → List Configure → Option (List Configure)
  update_configure now c t =
      if not connected
      then none
      else g.updates_struct (λ e. e.id == c.id)
          (record {
            id = 0;
            name = [];
            value = c.value;
            data_type = data_string;
            parent_id = none;
            private = false;
            create_time = 0;
            update_time = now;
            description = c.description;
          })
          t

  -- `Save()` of a node.
  unfoldable pub save_configure : Configure → List Configure → Option (List Configure)
  save_configure c t = if not connected then none else g.save c t
