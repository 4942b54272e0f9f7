-- ===== src/Model/Configure/Listing.antt =====
-- The listings of internal/app/domain/model/configure.go.
pub mod Laws
use easymail.Base.{
  ℕ, zero, suc, ◌≡◌, refl, ap, sym, ◌∙◌, Bool, true, false, ◌&&◌, ◌||◌, not, Option, none, some,
  List, [], ◌∷◌, Bytes, codes, is_empty, map, ◌==◌, if◌then◌else◌, All, arith,
}
use easymail.Base.Int.{ℤ}
use easymail.Model.Gorm.{Gorm}
use easymail.Model.Configure.{
  Configure, Answer, node, absent, refused, is_child, get_configure_by_id,
}
use easymail.Model.Listing.{Finder, Search, Page, page_of}

-- A map from the keys of the second level to their nodes; the newest entry stands first.
abbrev pub NodeMap : Type 0
NodeMap = List (ℕ × Configure)

-- `nodeMap[id]`, nil for a missing key.
abbrev pub node_at : ℕ → NodeMap → Option Configure
node_at id [] = none
node_at id ((k, c) ∷ m) = if k == id then some c else node_at id m

-- The keys of some nodes, and the map of them.
abbrev ids_of : List Configure → List ℕ
ids_of [] = []
ids_of (c ∷ cs) = c.id ∷ ids_of cs

abbrev put_all : List Configure → NodeMap → NodeMap
put_all [] m = m
put_all (c ∷ cs) m = put_all cs ((c.id, c) ∷ m)

-- The keys that the query asks for, and the map: of the node that was named, or of all.
abbrev pub chosen : ℕ → Option (List Configure) → Answer → List ℕ × NodeMap
chosen zero none found = ([], [])
chosen zero (some subs) found = (ids_of subs, put_all subs [])
chosen (suc id) subs (node c) = (suc id ∷ [], (suc id, c) ∷ [])
chosen (suc id) subs absent = (suc id ∷ [], [])
chosen (suc id) subs (refused e) = (suc id ∷ [], [])

-- The key is one of the list; a NULL is none of them.
abbrev among : Option ℕ → List ℕ → Bool
among none ids = false
among (some p) [] = false
among (some p) (i ∷ ids) = i == p || among (some p) ids

-- The key of a parent as the struct has it: NULL is 0.
abbrev pub key_of : Option ℕ → ℕ
key_of none = 0
key_of (some p) = p

-- A node with its parent filled in.
abbrev pub with_parent : NodeMap → Configure → Configure × Option Configure
with_parent m c = (c, node_at (key_of c.parent_id) m)

-- The page with the parents.
abbrev fill_parents :
    NodeMap → Option (Page Configure) → Option (Page (Configure × Option Configure))
fill_parents m none = none
fill_parents m (some (total, rs)) = some (total, map (with_parent m) rs)

module _ (connected : Bool) (g : Gorm Configure) (find : Finder Configure)
    (name_like : Bytes → Configure → Bool) where
  -- `GetRootConfigureRootNodes()`; none for an error.
  unfoldable pub get_root_configure_root_nodes : List Configure → Option (List Configure)
  get_root_configure_root_nodes t =
      if not connected
      then none
      else find
          (record {
            rows = λ c. is_child 0 c.parent_id;
            order = some (codes "name");
            offset = none;
            limit = none;
          })
          t

  -- `parent_id = ?`, which no NULL satisfies.
  abbrev pub is_under : ℕ → Configure → Bool
  is_under id c = among c.parent_id (id ∷ [])

  -- `GetSubConfigureByParentId(id)`.
  unfoldable pub get_sub_configure_by_parent_id : ℕ → List Configure → Option (List Configure)
  get_sub_configure_by_parent_id id t =
      if not connected
      then none
      else find
          (record { rows = is_under id; order = some (codes "name"); offset = none; limit = none })
          t

  -- `GetConfigureByParentId(id, subNodeID, keyword, orderField, orderDir, page, pageSize)`. An error of
  -- the first query is not looked at; it leaves no nodes.
  unfoldable pub get_configure_by_parent_id :
      ℕ
      → ℕ
      → Bytes
      → Bytes
      → Bytes
      → ℤ
      → ℤ
      → List Configure
      → Option (Page (Configure × Option Configure))
  unfolding page_of get_sub_configure_by_parent_id get_configure_by_id
  get_configure_by_parent_id id sub_node keyword field dir page page_size t =
      if not connected
      then none
      else let (ids, m) =
          chosen sub_node (get_sub_configure_by_parent_id id t)
            (get_configure_by_id connected g sub_node t) in
        fill_parents m (
          page_of g.count find
            (λ c. among c.parent_id ids && (is_empty keyword || name_like keyword c)) field dir page
            page_size t)
