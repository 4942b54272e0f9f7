-- ===== src/Filter/Rule/Operators.antt =====
-- Which operators `formatRuleDefine` knows. The operator is lower-cased before the switch, so the
-- four cases that are spelled with a capital letter are never taken.
use easymail.Base.{
  ℕ, ◌≡◌, ◌≢◌, refl, ap, sym, subst, ◌∙◌, Option, none, some, [], ◌∷◌, ◌++◌, arith, Bytes, codes,
  Lacks,
}
use easymail.Text.{cut_on, to_lower, lower}
use easymail.Filter.Rule.{operator_define, format_rule_define}

-- The operators of the switch.
pub data Operator : Type 0 where
  contains equals gt lt gte lte equal : Operator
  has_prefix' has_suffix not_equals not_equal : Operator

-- The operator as a user may write it in lower case.
abbrev pub name : Operator → Bytes
name contains = codes "contains"
name equals = codes "equals"
name gt = codes "gt"
name lt = codes "lt"
name gte = codes "gte"
name lte = codes "lte"
name equal = codes "equal"
name has_prefix' = codes "hasprefix"
name has_suffix = codes "hassuffix"
name not_equals = codes "notequals"
name not_equal = codes "notequal"

-- What the definition of an operator becomes.
abbrev pub rendered : Operator → Bytes → Option Bytes
rendered contains x = some (codes ".Contains(\"" ++ (x ++ codes "\")"))
rendered equals x = some (codes "==\"" ++ (x ++ codes "\""))
rendered gt x = some (codes ">" ++ x)
rendered lt x = some (codes "<" ++ x)
rendered gte x = some (codes ">=" ++ x)
rendered lte x = some (codes "<=" ++ x)
rendered equal x = some (codes "==" ++ x)
rendered _ x = none

operator-rendered : (op : Operator) (x : Bytes) → operator_define (name op) x ≡ rendered op x
unfolding operator_define
operator-rendered contains x = refl
operator-rendered _ x = refl

lower_colon : (c : ℕ) → lower c ≢ b':' → c ≢ b':'
lower_colon c h = ground arith

to_lower-Lacks : (a : Bytes) → Lacks b':' (to_lower a) → Lacks b':' a
unfolding to_lower
to_lower-Lacks [] h = tt
to_lower-Lacks (c ∷ a) h = (lower_colon c h.0, to_lower-Lacks a h.1)

name-Lacks : (op : Operator) → Lacks b':' (name op)
name-Lacks contains = omega arith
name-Lacks _ = omega arith

-- The first "::" behind a text without a colon is found there.
cut_on-append :
    (a x : Bytes) → Lacks b':' a → cut_on (codes "::") (a ++ b':' ∷ b':' ∷ x) ≡ some (a, x)
unfolding cut_on
cut_on-append [] x h = refl
cut_on-append (c ∷ a) x h = ground (arith, cut_on-append a x h.1)

-- A definition `operator::operand`, its operator in any mixture of capital and small letters, becomes
-- the condition of that operator for `contains`, `equals`, `gt`, `lt`, `gte`, `lte` and `equal`. For
-- `hasPrefix`, `hasSuffix`, `notEquals` and `notEqual` it is refused, however it is spelled.
pub define_rendered :
    (op : Operator) (a x : Bytes)
    → to_lower a ≡ name op
    → format_rule_define (a ++ b':' ∷ b':' ∷ x) ≡ rendered op x
unfolding format_rule_define
define_rendered op a x h =
    rw
      (
        cut_on-append a x (to_lower-Lacks a (subst (Lacks b':') (sym h) (name-Lacks op))),
        format_rule_define,
      )
      (ap (λ t. operator_define t x) h ∙ operator-rendered op x)
