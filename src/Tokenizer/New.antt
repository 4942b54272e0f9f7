-- ===== src/Tokenizer/New.antt =====
-- The constructors of internal/pkg/utils/preprocessing (tokenizerBasic.go, tokenizerChain.go,
-- tokenizerDefault.go, html2text.go) and their defaults (init.go). Each builds its value in a
-- `sync.Once` of the package, so that the state of a constructor is whether it was called.
pub mod Laws
use easymail.Base.{
  ℕ, ◌≡◌, ◌<◌, ◌⊎◌, refl, ap, sym, ◌∙◌, Bool, true, false, ◌||◌, Option, none, some, List, [], ◌∷◌,
  Bytes, codes, All, ◌==◌, ==_iff, arith, if◌then◌else◌, Bool-cases, inl, inr,
}
use easymail.Text.{split}
use easymail.Tokenizer.{TokenizerBasic, among, is_separator}
use easymail.Tokenizer.Combine.{TokenizerDefault}

-- `once.Do` of a function that fills a nil pointer: the pointer, and that the function was called.
abbrev pub once : {A : Type 0} → Bool → A → Option A × Bool
once true a = (none, true)
once false a = (some a, true)

-- `defaultSeparator`, in UTF-8.
abbrev pub default_separator : List Bytes
default_separator =
    (9 ∷ [])
    ∷ (10 ∷ [])
    ∷ (13 ∷ [])
    ∷ (32 ∷ [])
    ∷ codes "@"
    ∷ codes "#"
    ∷ codes ","
    ∷ codes "."
    ∷ codes ":"
    ∷ codes "?"
    ∷ codes "/"
    ∷ (92 ∷ [])
    ∷ (39 ∷ [])
    ∷ codes ","
    ∷ codes "!"
    ∷ codes ";"
    ∷ codes "("
    ∷ codes ")"
    ∷ codes "-"
    ∷ (239 ∷ 188 ∷ 154 ∷ [])
    ∷ (239 ∷ 188 ∷ 136 ∷ [])
    ∷ (239 ∷ 188 ∷ 137 ∷ [])
    ∷ (227 ∷ 128 ∷ 130 ∷ [])
    ∷ (239 ∷ 188 ∷ 140 ∷ [])
    ∷ codes "["
    ∷ codes "]"
    ∷ (239 ∷ 188 ∷ 159 ∷ [])
    ∷ (239 ∷ 188 ∷ 129 ∷ [])
    ∷ (227 ∷ 128 ∷ 129 ∷ [])
    ∷ (226 ∷ 128 ∷ 157 ∷ [])
    ∷ []

-- `separatorMap`: the first byte of each text, as a rune; none for the panic at an empty text.
unfoldable pub first_bytes : List Bytes → Option (List ℕ)
first_bytes [] = some []
first_bytes ([] ∷ ss) = none
first_bytes ((b ∷ s) ∷ ss) = elim (first_bytes ss) [ none ↦ none | some bs ↦ some (b ∷ bs) ]

-- The separators that are taken: the default for none.
abbrev pub separators_or_default : List Bytes → List Bytes
separators_or_default [] = default_separator
separators_or_default (s ∷ ss) = s ∷ ss

-- `NewTokenizerBasic(separator)`: the pointer and the state, or none for the panic.
unfoldable pub new_tokenizer_basic : List Bytes → Bool → Option (Option TokenizerBasic × Bool)
unfolding first_bytes
new_tokenizer_basic separator called = elim (first_bytes (separators_or_default separator)) [
  | none ↦ none
  | some bs ↦ some (once called (record { separator = bs }))
]

-- `NewTokenizerFuzzy(stopWord)`, for the test of a stop word.
unfoldable pub new_tokenizer_fuzzy : (List ℕ → Bool) → Bool → Option (List ℕ → Bool) × Bool
new_tokenizer_fuzzy is_stop_word called = once called is_stop_word

-- `NewTokenizerDefault(dictList, stopWords, excludeChars)`, where `loads` is whether the segmenter can
-- load the dictionaries; none for the panic when it cannot.
unfoldable pub new_tokenizer_default :
    Bool → (List ℕ → Bool) → List (List ℕ) → Bool → Option (Option TokenizerDefault × Bool)
new_tokenizer_default loads is_stop_word exclude_chars called =
    if called || loads
    then some (once called (record { exclude_chars = exclude_chars; is_stop_word = is_stop_word }))
    else none

-- `defaultHtmlTags`, with the comma that stands in one of them.
abbrev pub default_html_tags : List Bytes
default_html_tags = split 32 (
    codes
      "stationery a abbr address applet area article aside audio b base bdi bdo blockquote body br button canvas caption cite code col colgroup data datalist dd del details dfn dialog dir div dl dt em embed fieldset figcaption figure footer form font h1, head header hgroup hr html i iframe img input ins kbd label legend Legend li link main map mark menu menuitem meta meter nav noembed noscript object ol optgroup option output p param picture pre progress q rb rp rt rtc ruby s samp script section select small source span strong style sub summary sup table tbody td textarea tfoot th thead time title tr track tt u ul var video wbr")

-- `NewHtml2Text(tags)`: the tags that are known.
unfoldable pub new_html2_text : List Bytes → Bool → Option (List Bytes) × Bool
new_html2_text [] called = once called default_html_tags
new_html2_text (t ∷ ts) called = once called (t ∷ ts)
