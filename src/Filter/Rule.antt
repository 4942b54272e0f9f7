-- ===== src/Filter/Rule.antt =====
-- `formatRuleDefine` and `Convert2DRL` of internal/app/domain/model/filter.go: a rule of the
-- database as a rule of the rule engine.
pub mod Operators
pub mod Laws
pub mod Tests
use easymail.Base.{
  ℕ, Bool, true, false, Option, none, some, List, [], ◌∷◌, ◌++◌, map, Bytes, codes, ◌==◌, not, same,
  is_empty, keep, if◌then◌else◌,
}
use easymail.Text.{cut_on, split_on, join, to_lower, decimal, decimal_ℤ}
use easymail.Filter.{FilterRule, FilterAction, action_number}

-- The switch on the operator: the condition behind the field's name, or `none` for an error.
operator_define : Bytes → Bytes → Option Bytes
operator_define op x =
    if same op (codes "contains")
    then some (codes ".Contains(\"" ++ (x ++ codes "\")"))
    else if same op (codes "hasPrefix")
    then some (codes ".HasPrefix(\"" ++ (x ++ codes "\")"))
    else if same op (codes "hasSuffix")
    then some (codes ".HasSuffix(\"" ++ (x ++ codes "\")"))
    else if same op (codes "equals")
    then some (codes "==\"" ++ (x ++ codes "\""))
    else if same op (codes "notEquals")
    then some (codes "!=\"" ++ (x ++ codes "\""))
    else if same op (codes "gt")
    then some (codes ">" ++ x)
    else if same op (codes "lt")
    then some (codes "<" ++ x)
    else if same op (codes "gte")
    then some (codes ">=" ++ x)
    else if same op (codes "lte")
    then some (codes "<=" ++ x)
    else if same op (codes "equal")
    then some (codes "==" ++ x)
    else if same op (codes "notEqual")
    then some (codes "!=" ++ x)
    else none

-- `formatRuleDefine(s)`.
unfoldable pub format_rule_define : Bytes → Option Bytes
unfolding operator_define cut_on to_lower
format_rule_define s = elim (cut_on (codes "::") s) [
  | none ↦ none
  | some (d, x) ↦ operator_define (to_lower d) x
]

-- The condition on the client's address, if the rule has one that is well formed.
ip_condition : Bytes → List Bytes
unfolding format_rule_define
ip_condition ip =
    if is_empty ip
    then []
    else elim (format_rule_define ip) [ none ↦ [] | some t ↦ (codes "feature.client_ip" ++ t) ∷ [] ]

-- The conditions that the rule spells out.
assembly_conditions : Bytes → List Bytes
unfolding split_on
assembly_conditions a =
    if is_empty a then [] else map (λ c. codes "feature." ++ c) (split_on (codes ";;") a)

-- `condition` at the end of its loops.
unfoldable pub conditions : FilterRule → List Bytes
unfolding ip_condition assembly_conditions
conditions r = ip_condition r.client_ip ++ assembly_conditions r.assembly

-- The text up to the conditions.
rule_head : FilterRule → Bytes
unfolding decimal_ℤ
rule_head r =
    codes "rule rule_"
    ++ (decimal_ℤ r.id
        ++ (codes " \""
            ++ (keep (λ c. not (c == b'"')) r.description
                ++ (codes "\" salience " ++ (decimal_ℤ r.priority ++ codes " {\n\twhen\n")))))

-- The text behind the conditions.
rule_tail : FilterRule → Bytes
unfolding decimal decimal_ℤ
rule_tail r =
    codes "\tthen\n\t\tresult.RuleID="
    ++ (decimal_ℤ r.id
        ++ (codes ";\n\t\tresult.Action="
            ++ (decimal (action_number r.action)
                ++ (codes ";\n\t\tRetract(\"rule_"
                    ++ (decimal_ℤ r.id ++ codes "\");\n\t\tComplete();\n}\n")))))

-- The text of a rule with its conditions; without one there is no rule.
render_rule : FilterRule → List Bytes → Option Bytes
unfolding rule_head rule_tail join
render_rule r [] = none
render_rule r (c ∷ cs) =
    some (
      rule_head r
      ++ (codes "\t\t" ++ (join (codes " && ") (c ∷ cs) ++ (codes "\n" ++ rule_tail r))))

-- `FilterRule.Convert2DRL()`; `none` is the error "rule condition is empty".
unfoldable pub convert_to_drl : FilterRule → Option Bytes
unfolding conditions render_rule
convert_to_drl r = render_rule r (conditions r)
