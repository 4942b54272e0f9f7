-- ===== src/Model/Configure/Listing/Laws.antt =====
-- The parents on a page of nodes.
use easymail.Base.{
  ℕ, suc, ◌≡◌, ◌⊎◌, refl, ap, sym, subst, ◌∙◌, Bool, true, false, ◌&&◌, ◌||◌, Option, none, some,
  List, [], ◌∷◌, Bytes, is_empty, map, ◌==◌, ==_iff, All, arith, Bool-cases, inl, inr,
}
use easymail.Base.Int.{pos}
use easymail.Model.Gorm.{Gorm}
use easymail.Model.Configure.{Configure, Answer, get_configure_by_id}
use easymail.Model.Listing.{Finder, IsFinder, IsCount, Page, page_of}
use easymail.Model.Listing.Laws.{page_of-IsPage}
use easymail.Model.Configure.Listing.{
  NodeMap, node_at, ids_of, put_all, chosen, among, key_of, with_parent, fill_parents,
  get_sub_configure_by_parent_id, get_configure_by_parent_id,
}

-- The map has a node for a key, with that key.
abbrev Holds : ℕ → NodeMap → Type 0
Holds id m = (p : Configure) × (node_at id m ≡ some p) × (p.id ≡ id)

Holds-put :
    (id : ℕ) (c : Configure) (m : NodeMap) → (c.id ≡ id) ⊎ Holds id m → Holds id ((c.id, c) ∷ m)
Holds-put id c m h = elim (Bool-cases (c.id == id)) [
  | inl e ↦ (c, ground (arith, e), (==_iff c.id id).0 e)
  | inr e ↦ elim h [
    | inl k ↦ absurd (cc ((==_iff c.id id).1 k, e))
    | inr (p, at, is) ↦ (p, ground (arith, e, at), is)
  ]
]

Holds-put_all :
    (id : ℕ) (cs : List Configure) (m : NodeMap)
    → (among (some id) (ids_of cs) ≡ true) ⊎ Holds id m
    → Holds id (put_all cs m)
Holds-put_all id [] m (inl e) = absurd (cc e)
Holds-put_all id [] m (inr h) = h
Holds-put_all id (c ∷ cs) m (inr h) =
    Holds-put_all id cs ((c.id, c) ∷ m) (inr (Holds-put id c m (inr h)))
Holds-put_all id (c ∷ cs) m (inl e) = elim (Bool-cases (c.id == id)) [
  | inl k ↦
      Holds-put_all id cs ((c.id, c) ∷ m) (inr (Holds-put id c m (inl ((==_iff c.id id).0 k))))
  | inr k ↦ Holds-put_all id cs ((c.id, c) ∷ m) (inl (ground (arith, e, k)))
]

-- A node and its parent agree.
abbrev pub HasParent : Configure × Option Configure → Type 0
HasParent (c, parent) = (p : Configure) × (parent ≡ some p) × (c.parent_id ≡ some p.id)

filled_lem :
    (cs : List Configure) (c : Configure) (o : Option ℕ)
    → c.parent_id ≡ o
    → among o (ids_of cs) ≡ true
    → HasParent (with_parent (put_all cs []) c)
filled_lem cs c none e h = absurd (cc h)
filled_lem cs c (some id) e h =
    let (p, at, is) = Holds-put_all id cs [] (inl h) in
    (p, ap (λ o. node_at (key_of o) (put_all cs [])) e ∙ at, e ∙ ap some (sym is))

both : (a b : Bool) → (a && b) ≡ true → a ≡ true
both true b e = refl
both false b e = absurd (cc e)

fill-HasParent :
    (cs rs : List Configure) (likes : Configure → Bool)
    → All (λ c. (among c.parent_id (ids_of cs) && likes c) ≡ true) rs
    → All HasParent (map (with_parent (put_all cs [])) rs)
fill-HasParent cs [] likes h = tt
fill-HasParent cs (c ∷ rs) likes (h, hs) = (
  filled_lem cs c c.parent_id refl (both (among c.parent_id (ids_of cs)) (likes c) h),
  fill-HasParent cs rs likes hs,
)

filled_page :
    (m : NodeMap) (o : Option (Page Configure)) (total : ℕ)
    (out : List (Configure × Option Configure))
    → fill_parents m o ≡ some (total, out)
    → (rs : List Configure) × (o ≡ some (total, rs)) × (out ≡ map (with_parent m) rs)
filled_page m none total out e = absurd (cc e)
filled_page m (some (n, rs)) total out e =
    let pair : Path (ℕ × List (Configure × Option Configure)) (n, map (with_parent m) rs)
        (total, out) =
      cc e in
    (rs, ap (λ x. some (x.0, rs)) pair, sym (ap (λ x. x.1) pair))

module _ (g : Gorm Configure) (find : Finder Configure) (name_like : Bytes → Configure → Bool)
    (counts : IsCount g.count) (finds : IsFinder find) where
  page_parents :
      (subs : Option (List Configure)) (found : Answer) (keyword field dir : Bytes) (k n : ℕ)
      (t : List Configure) (total : ℕ) (out : List (Configure × Option Configure))
      → (let (ids, m) = chosen 0 subs found in
          fill_parents m (
            page_of g.count find
              (λ c. among c.parent_id ids && (is_empty keyword || name_like keyword c))
              field
              dir
              (pos k)
              (pos (suc n))
              t))
        ≡ some (total, out)
      → All HasParent out
  page_parents none found keyword field dir k n t total out e =
      let (rs, page, is) = filled_page [] _ total out e in
      let shape = page_of-IsPage g.count find counts finds _ field dir k n t total rs page in
      subst (All HasParent) (sym is)
        (fill-HasParent [] rs (λ c. is_empty keyword || name_like keyword c) shape.passing)
  page_parents (some cs) found keyword field dir k n t total out e =
      let (rs, page, is) = filled_page (put_all cs []) _ total out e in
      let shape = page_of-IsPage g.count find counts finds _ field dir k n t total rs page in
      subst (All HasParent) (sym is)
        (fill-HasParent cs rs (λ c. is_empty keyword || name_like keyword c) shape.passing)

  -- On a page of the third level that is asked for below all nodes of the second, with any keyword
  -- and for an offset and a limit above 0, every node comes with its parent: a node whose key is the
  -- one that the row names. A page is cut from the rows that pass the query's test.
  pub get_configure_parents :
      (id : ℕ) (keyword field dir : Bytes) (k n : ℕ) (t : List Configure) (total : ℕ)
      (out : List (Configure × Option Configure))
      → get_configure_by_parent_id true g find name_like id 0 keyword field dir
          (pos k)
          (pos (suc n))
          t
        ≡ some (total, out)
      → All HasParent out
  unfolding get_configure_by_parent_id
  get_configure_parents id keyword field dir k n t total out e =
      page_parents (get_sub_configure_by_parent_id true g find name_like id t)
        (get_configure_by_id true g 0 t) keyword field dir k n t total out e
