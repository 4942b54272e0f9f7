-- ===== src/Filter/Rule/Laws.antt =====
-- What a rule of the rule engine is made of, and which conditions get lost.
use easymail.Base.{
  ℕ, zero, suc, ◌⊎◌, ◌≡◌, ◌≢◌, ◌↔◌, refl, ap, sym, ◌∙◌, none, List, [], ◌∷◌, ◌++◌, arith, Bytes,
  codes,
}
use easymail.Text.{split_from, to_lower}
use easymail.Filter.{FilterRule}
use easymail.Filter.Rule.{
  format_rule_define, ip_condition, assembly_conditions, conditions, render_rule, convert_to_drl,
}
use easymail.Filter.Rule.Operators.{Operator, name, rendered, define_rendered}

-- The operators that the code names and never accepts.
abbrev pub IsDead : Operator → Type 0
IsDead op = (x : Bytes) → rendered op x ≡ none

ip_condition_refused : (ip : Bytes) → format_rule_define ip ≡ none → ip_condition ip ≡ []
unfolding ip_condition
ip_condition_refused [] h = refl
ip_condition_refused (c ∷ s) h = rw (h, ip_condition)

-- The address stands in a rule's conditions only.
render_rule-ip :
    (r : FilterRule) (ip : Bytes) (cs : List Bytes)
    → render_rule (record r { client_ip = ip }) cs ≡ render_rule r cs
unfolding render_rule
render_rule-ip r ip [] = refl
render_rule-ip r ip (c ∷ cs) = refl

ip_condition-nil :
    (ip : Bytes) → (ip_condition ip ≡ []) ↔ ((ip ≡ []) ⊎ (format_rule_define ip ≡ none))
unfolding ip_condition
ip_condition-nil [] = ground arith
ip_condition-nil (c ∷ s) = ground arith

split_on-ne-nil : (sep s : Bytes) (k : ℕ) → split_from sep s k ≢ []
unfolding split_from
split_on-ne-nil sep [] k = ground arith
split_on-ne-nil sep (c ∷ s) zero = ground (arith, split_on-ne-nil sep s 0)
split_on-ne-nil sep (c ∷ s) (suc k) = split_on-ne-nil sep s k

assembly-nil : (a : Bytes) → (assembly_conditions a ≡ []) ↔ (a ≡ [])
unfolding assembly_conditions
assembly-nil [] = ground arith
assembly-nil (c ∷ s) = ground (arith, split_on-ne-nil (codes ";;") (c ∷ s) 0)

append-nil_iff : (xs ys : List Bytes) → (xs ++ ys ≡ []) ↔ ((xs ≡ []) × (ys ≡ []))
append-nil_iff [] ys = ground arith
append-nil_iff (x ∷ xs) ys = ground arith

render_rule-none : (r : FilterRule) (cs : List Bytes) → (render_rule r cs ≡ none) ↔ (cs ≡ [])
unfolding render_rule
render_rule-none r [] = ground arith
render_rule-none r (c ∷ cs) = ground arith

-- A rule is refused for want of a condition exactly when its address is empty or its address's
-- definition is refused, and its assembly is empty.
convert_refused_iff :
    (r : FilterRule)
    → (convert_to_drl r ≡ none)
      ↔ (((r.client_ip ≡ []) ⊎ (format_rule_define r.client_ip ≡ none)) × (r.assembly ≡ []))
unfolding convert_to_drl conditions
convert_refused_iff r = ground (
  arith,
  render_rule-none r (ip_condition r.client_ip ++ assembly_conditions r.assembly),
  append-nil_iff (ip_condition r.client_ip) (assembly_conditions r.assembly),
  ip_condition-nil r.client_ip,
  assembly-nil r.assembly,
)

-- A rule is refused for want of a condition exactly when its address is empty or its address's
-- definition is refused, and its assembly is empty. And a rule whose address's definition is refused
-- is converted exactly as the rule without an address: the condition is dropped without an error, so
-- the rule that is written applies to every address.
pub convert_drops :
    (r : FilterRule)
    → ((convert_to_drl r ≡ none)
        ↔ (((r.client_ip ≡ []) ⊎ (format_rule_define r.client_ip ≡ none)) × (r.assembly ≡ [])))
      × (format_rule_define r.client_ip ≡ none
          → convert_to_drl r ≡ convert_to_drl (record r { client_ip = [] }))
unfolding convert_to_drl conditions
convert_drops r = (
  convert_refused_iff r,
  (λ refused.
      ap (λ t. render_rule r (t ++ assembly_conditions r.assembly))
        (ip_condition_refused r.client_ip refused)
      ∙ sym (render_rule-ip r [] (assembly_conditions r.assembly))),
)

-- A rule whose client address is defined by one of the four dead operators is converted exactly as
-- the rule without a condition on the address.
dead_operator_dropped :
    (r : FilterRule) (op : Operator) (a x : Bytes)
    → IsDead op
    → to_lower a ≡ name op
    → r.client_ip ≡ a ++ b':' ∷ b':' ∷ x
    → convert_to_drl r ≡ convert_to_drl (record r { client_ip = [] })
dead_operator_dropped r op a x dead spelled e =
    (convert_drops r).1 (ap format_rule_define e ∙ define_rendered op a x spelled ∙ dead x)
