-- ===== src/Tokenizer/Tests.antt =====
-- The simple tokenizer on a short text.
use easymail.Base.{
  none, some, ℕ, Bool, true, false, List, ◌++◌, map, arith, same, ltb, ◌≡◌, refl, [], ◌∷◌, codes,
  All, keep, not, ◌==◌,
}
use easymail.Tokenizer.{TokenizerBasic, cut_text, get_domain}
use easymail.Tokenizer.Chain.{get_multibyte, cut_chain}
use easymail.Tokenizer.Chain.Laws.{chosen, at_least_one, get_multibyte-chosen}
use easymail.Tokenizer.Chain.Words.{IsUnit, cut_chain_units}
use easymail.Tokenizer.Combine.{combine_token, cut_default}
use easymail.Tokenizer.Combine.Laws.{pairs, triples, combine_token_runs}
use easymail.Tokenizer.New.{new_tokenizer_basic, new_tokenizer_default, new_html2_text}
use easymail.Tokenizer.New.Laws.{new_tokenizer_basic_wide}
use easymail.Tokenizer.Laws.{IsToken, flatten, plain, cut_text_whole}

abbrev spaces_and_dots : TokenizerBasic
spaces_and_dots = record { separator = b' ' ∷ b'.' ∷ [] }

-- Two wide runes behind a word, and the word behind them.
words :
    cut_text spaces_and_dots (b'a' ∷ b'b' ∷ b' ' ∷ b'.' ∷ 20013 ∷ 22269 ∷ b'c' ∷ b'd' ∷ [])
    ≡ (b'a' ∷ b'b' ∷ []) ∷ (20013 ∷ []) ∷ (22269 ∷ []) ∷ (b'c' ∷ b'd' ∷ []) ∷ []
unfolding cut_text
words = refl

domain_part : get_domain (codes "bob@b.cn") ≡ codes "b.cn"
unfolding get_domain
domain_part = refl

cut_text_whole_example :
    All (IsToken spaces_and_dots) (cut_text spaces_and_dots (codes "see b.cn"))
    × (flatten (cut_text spaces_and_dots (codes "see b.cn"))
        ≡ plain spaces_and_dots (keep (λ r. not (r == 65279)) (codes "see b.cn")))
cut_text_whole_example = cut_text_whole spaces_and_dots (codes "see b.cn")

abbrev is_stop : List ℕ → Bool
is_stop w = same w (codes "the")

-- "The Mail" and two wide runes.
abbrev mixed : List ℕ
mixed = codes "The Mail " ++ (20013 ∷ 22269 ∷ [])

mixed_units :
    cut_chain is_stop mixed true false false false ≡ codes "mail" ∷ (20013 ∷ []) ∷ (22269 ∷ []) ∷ []
unfolding cut_chain
mixed_units = refl

get_multibyte-chosen_example :
    get_multibyte mixed true true true true
    ≡ at_least_one (chosen true true true true (keep (ltb 255) mixed))
get_multibyte-chosen_example = get_multibyte-chosen mixed true true true true

cut_chain_units_example : All (IsUnit is_stop) (cut_chain is_stop mixed true false false true)
cut_chain_units_example = cut_chain_units is_stop mixed true

abbrev few : List (List ℕ)
few = codes "buy" ∷ codes "it" ∷ codes "now" ∷ []

combine_token_runs_example :
    (combine_token few 2 true true ≡ pairs few) × (combine_token few 3 true true ≡ triples true few)
combine_token_runs_example =
    combine_token_runs (codes "buy") (codes "it") (codes "now" ∷ []) true (ground arith)

-- A segmenter that cuts a text into its runes, and the pairs of what is kept.
abbrev one_by_one : List ℕ → List (List ℕ)
one_by_one s = map (λ c. c ∷ []) s

pairs_of_letters :
    cut_default one_by_one
      (record { exclude_chars = codes "x" ∷ []; is_stop_word = is_stop })
      (codes "a1bxc")
      false
      true
      false
      false
    ≡ codes "a b" ∷ codes "b c" ∷ []
unfolding cut_default
pairs_of_letters = refl

-- The separators "：" and " ".
new_tokenizer_basic_wide_example :
    (t : TokenizerBasic) × (new_tokenizer_basic ((239 ∷ 188 ∷ 154 ∷ []) ∷ codes " " ∷ []) false
      ≡ some (some t, true))
    × (new_tokenizer_basic ((239 ∷ 188 ∷ 154 ∷ []) ∷ codes " " ∷ []) true ≡ some (none, true))
    × ((text : List ℕ)
        → keep (ltb 255) (flatten (cut_text t text))
          ≡ keep (ltb 255) (keep (λ r. not (r == 65279)) text))
new_tokenizer_basic_wide_example =
    new_tokenizer_basic_wide ((239 ∷ 188 ∷ 154 ∷ []) ∷ codes " " ∷ [])
      ((omega arith), ((omega arith), tt))

empty_separator : new_tokenizer_basic ([] ∷ []) true ≡ none
unfolding new_tokenizer_basic
empty_separator = refl

no_dictionary : new_tokenizer_default false (λ w. false) [] false ≡ none
unfolding new_tokenizer_default
no_dictionary = refl

second_tags : new_html2_text (codes "p" ∷ []) true ≡ (none, true)
unfolding new_html2_text
second_tags = refl
