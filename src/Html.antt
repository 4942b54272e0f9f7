-- ===== src/Html.antt =====
-- internal/pkg/utils/preprocessing/html2text.go: what is taken from a page. goquery is not part of the
-- repository: a page is what its queries return, behind the removals. A style is one of ASCII.
pub mod Tests
use easymail.Base.{
  ℕ, ◌+◌, Bool, true, false, ◌&&◌, ◌||◌, not, Option, none, some, List, [], ◌∷◌, ◌++◌, Bytes, codes,
  same, is_empty, Dict, lookup, insert, has, take, drop, length, keep, leb, ◌==◌, ltb,
  if◌then◌else◌,
}
use easymail.Text.{to_lower, split, split_two, trim, has_prefix, cut_on, split_on, join, every}

-- `unicode.IsSpace` of one byte.
unfoldable pub is_space : ℕ → Bool
is_space c = leb 9 c && leb c 13 || (c == 32 || (c == 133 || c == 160))

-- `strings.Index(s, p)`, with none for -1.
abbrev index : Bytes → Bytes → Option ℕ
index s p = elim (cut_on p s) [ none ↦ none | some (a, b) ↦ some (length a) ]

-- The end of `matchHtmlProperty`, with the two indices: the bytes between them are spaces.
spaced : Bytes → ℕ → Option ℕ → Option ℕ → Bool
unfolding is_space every
spaced src key_length (some k) (some v) = every is_space (drop (k + key_length + 1) (take v src))
spaced src key_length _ _ = false

-- `matchHtmlProperty(src, key, value)`.
unfoldable pub match_html_property : Bytes → Bytes → Bytes → Bool
unfolding spaced to_lower cut_on
match_html_property src key value =
    let s = to_lower src in spaced s (length key) (index s (key ++ (b':' ∷ []))) (index s value)

-- One declaration is put into the map, if it has a colon.
add_property : List Bytes → Dict Bytes → Dict Bytes
unfolding trim
add_property (k ∷ v ∷ []) m = insert (trim 32 k) (trim 32 v) m
add_property _ m = m

-- The loop of `mapHtmlProperty`.
add_properties : List Bytes → Dict Bytes → Dict Bytes
unfolding add_property split_two
add_properties [] m = m
add_properties (s ∷ ss) m = add_properties ss (add_property (split_two b':' s) m)

-- `mapHtmlProperty(style)`.
unfoldable pub map_html_property : Bytes → Dict Bytes
unfolding add_properties split to_lower
map_html_property style = add_properties (split b';' (to_lower style)) []

-- The entry of a map, or the empty text.
abbrev entry : Bytes → Dict Bytes → Bytes
entry k m = elim (lookup k m) [ none ↦ codes "" | some v ↦ v ]

-- A size that is not shown: nothing, or less.
unfoldable pub no_size : Bytes → Bool
unfolding has_prefix
no_size v = has_prefix v (codes "0") || has_prefix v (codes "-")

-- Whether `Parse` removes an element with this style.
unfoldable pub hides : Dict Bytes → Bool
unfolding no_size
hides m =
    no_size (entry (codes "width") m)
    || (no_size (entry (codes "height") m)
        || (no_size (entry (codes "font") m)
            || (no_size (entry (codes "font-size") m)
                || same (entry (codes "display") m) (codes "none"))))

-- An element as the queries return it: its tag, its attributes and the text below it.
pub record Element : Type 0 where
  pub name : Bytes
  pub attributes : Dict Bytes
  pub text : Bytes

-- Whether the tag is one of those that are known.
known : List Bytes → Bytes → Bool
known [] name = false
known (t ∷ ts) name = same t name || known ts name

-- Whether the first walk over the body empties an element, and whether it removes it.
unfoldable pub treated : List Bytes → Element → Bool × Bool
unfolding map_html_property hides known
treated tags e = (
  not (known tags e.name),
  elim (lookup (codes "style") e.attributes) [
    | none ↦ false
    | some s ↦ hides (map_html_property s)
  ],
)

-- `Parse` of one heading tag after another; the order of the map is that of the list.
unfoldable pub replace_tags : List (Bytes × Bytes) → Bytes → Bytes
unfolding split_on join
replace_tags [] src = src
replace_tags ((old, new) ∷ rest) src = replace_tags rest (join new (split_on old src))

-- What is taken so far: the texts and the addresses.
abbrev pub Taken : Type 0
Taken = List Bytes × List Bytes

-- The link of an element.
take_link : Element → Taken → Taken
take_link e (text, url) = elim (lookup (codes "href") e.attributes) [
  | none ↦ (text, url)
  | some link ↦ (text ++ (e.text ∷ []), url ++ (link ∷ []))
]

-- Whether `data:` stands in a source, behind its begin.
data_inside : Bytes → Bool
unfolding cut_on to_lower
data_inside src = elim (index (to_lower src) (codes "data:")) [ none ↦ false | some i ↦ ltb 0 i ]

-- The image of an element: its source and its description.
take_image : Element → Taken → Taken
unfolding data_inside
take_image e (text, url) = elim (lookup (codes "src") e.attributes) [
  | none ↦ (text, url)
  | some src ↦
      let alt = entry (codes "alt") e.attributes in
      (
        (if is_empty alt then text else text ++ (alt ∷ [])),
        (if data_inside src then url ++ (src ∷ []) else url),
      )
]

-- The second walk over the body.
unfoldable pub take_links : List Element → Taken → Taken
unfolding take_link take_image
take_links [] taken = taken
take_links (e ∷ es) taken = take_links es (take_image e (take_link e taken))

-- What is behind the first `=` of a text in two parts.
target_of : List Bytes → List Bytes
target_of (a ∷ b ∷ []) = b ∷ []
target_of _ = []

-- The walk over the meta elements.
unfoldable pub take_metas : List Element → List Bytes → List Bytes
unfolding target_of split_two to_lower
take_metas [] url = url
take_metas (e ∷ es) url = elim (lookup (codes "http-equiv") e.attributes) [
  | none ↦ take_metas es url
  | some meta ↦ elim (lookup (codes "text") e.attributes) [
    | none ↦ take_metas es url
    | some c ↦ take_metas es (
        if same (to_lower meta) (codes "refresh") then url ++ target_of (split_two b'=' c) else url)
  ]
]

-- The walk over the videos.
unfoldable pub take_videos : List Element → List Bytes → List Bytes
take_videos [] url = url
take_videos (e ∷ es) url = elim (lookup (codes "poster") e.attributes) [
  | none ↦ take_videos es url
  | some p ↦ take_videos es (url ++ (keep (λ c. not (c == 13 || c == 10)) p ∷ []))
]

-- The texts that are not empty.
abbrev filled : List Bytes → List Bytes
filled ts = keep (λ t. not (is_empty t)) ts

-- A page behind the removals, as the queries of `Parse` return it.
pub record Page : Type 0 where
  pub title : Bytes
  pub body : List Element
  pub metas : List Element
  pub videos : List Element
  pub bodies : List Bytes
  pub inputs : List Element

abbrev values : List Element → List Bytes
values [] = []
values (e ∷ es) = entry (codes "value") e.attributes ∷ values es

-- `Parse(src)`, from the title on.
unfoldable pub parse_page : Page → Taken
unfolding take_links take_metas take_videos
parse_page p =
    let (text, url) = take_links p.body (p.title ∷ [], []) in
    (
      text ++ (filled p.bodies ++ filled (values p.inputs)),
      take_videos p.videos (take_metas p.metas url),
    )
