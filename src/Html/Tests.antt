-- ===== src/Html/Tests.antt =====
-- Styles and pages at concrete inputs.
use easymail.Base.{◌≡◌, refl, true, false, [], ◌∷◌, codes}
use easymail.Html.{
  match_html_property, map_html_property, hides, Element, treated, replace_tags, parse_page,
}

styles :
    map_html_property (codes " Width : 0px;color:red;x")
    ≡ (codes "width", codes "0px") ∷ (codes "color", codes "red") ∷ []
unfolding map_html_property
styles = refl

matched :
    (match_html_property (codes "a; Width: \t0") (codes "width") (codes "0") ≡ true)
    × (match_html_property (codes "width: 10") (codes "width") (codes "0") ≡ false)
unfolding match_html_property
matched = (refl, refl)

hidden :
    (hides ((codes "display", codes "none") ∷ []) ≡ true)
    × (hides ((codes "width", codes "10") ∷ []) ≡ false)
unfolding hides
hidden = (refl, refl)

headings : replace_tags ((codes "<h1>", codes "<b>") ∷ []) (codes "x<h1>y") ≡ codes "x<b>y"
unfolding replace_tags
headings = refl

abbrev picture : Element
picture = record {
  name = codes "img";
  attributes =
      (codes "src", codes "http://b.cn/1")
      ∷ (codes "alt", codes "one")
      ∷ (codes "style", codes "width:-1")
      ∷ [];
  text = [];
}

unknown_tag : treated (codes "a" ∷ []) picture ≡ (true, true)
unfolding treated
unknown_tag = refl

-- The source of a picture is not taken.
pictures :
    parse_page (record {
      title = codes "t";
      body = picture ∷ [];
      metas = [];
      videos = [];
      bodies = codes "x" ∷ [] ∷ [];
      inputs = [];
    })
    ≡ (codes "t" ∷ codes "one" ∷ codes "x" ∷ [], [])
unfolding parse_page
pictures = refl
