-- ===== src/Text/Path.antt =====
-- What the source uses of Go's package path/filepath on Unix: Clean and Join, over lists of bytes.
pub mod Laws
use mathlib.Core.List.{reverse}
use easymail.Base.{
  Bool, true, false, ◌||◌, not, List, [], ◌∷◌, Bytes, codes, same, is_empty, if◌then◌else◌,
}
use easymail.Text.{split, join, has_prefix}

-- One more element behind those that are kept, which stand in reverse.
push_part : Bool → List Bytes → Bytes → List Bytes
push_part rooted kept p =
    if is_empty p || same p (codes ".")
    then kept
    else if not (same p (codes ".."))
    then p ∷ kept
    else elim kept [
      | [] ↦ if rooted then [] else p ∷ []
      | q ∷ rest ↦ if same q (codes "..") then p ∷ q ∷ rest else rest
    ]

clean_parts : Bool → List Bytes → List Bytes → List Bytes
unfolding push_part
clean_parts rooted kept [] = kept
clean_parts rooted kept (p ∷ ps) = clean_parts rooted (push_part rooted kept p) ps

-- A path from its elements, which stand in reverse.
render : Bool → List Bytes → Bytes
render true kept = b'/' ∷ join (codes "/") (reverse kept)
render false [] = codes "."
render false (p ∷ ps) = join (codes "/") (reverse (p ∷ ps))

-- `filepath.Clean(path)`.
unfoldable pub clean : Bytes → Bytes
unfolding clean_parts render split join has_prefix
clean s =
    let rooted = has_prefix s (codes "/") in render rooted (clean_parts rooted [] (split b'/' s))

-- `filepath.Join(elem...)`.
unfoldable pub join_path : List Bytes → Bytes
unfolding clean
join_path [] = []
join_path (e ∷ es) =
    let rest = join_path es in if is_empty e then rest else clean (join (codes "/") (e ∷ es))
