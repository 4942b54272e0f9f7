-- ===== src/Filter/Rule/Tests.antt =====
-- Rules and time-outs at concrete inputs.
use easymail.Base.{◌⊎◌, ◌↔◌, none, ◌≡◌, refl, some, [], ◌∷◌, ◌++◌, Bytes, codes, arith}
use easymail.Base.Int.{pos, negsuc}
use easymail.Text.{to_lower, cut_on, split_on, join, decimal_ℤ}
use easymail.Filter.{FilterRule, FilterAction, year}
use easymail.Filter.Timeout.{make_filter_metric_timeout, timeout_exact, life}
use easymail.Filter.Rule.{format_rule_define, convert_to_drl}
use easymail.Filter.Rule.Laws.{convert_drops}
use easymail.Filter.Rule.Operators.{has_prefix', define_rendered, rendered}

abbrev rule_with : Bytes → Bytes → FilterRule
rule_with ip assembly = record {
  id = pos 3;
  priority = pos 10;
  description = codes "no \"spam\"";
  action = FilterAction.reject;
  client_ip = ip;
  sender = [];
  header_from = [];
  nick = [];
  rcpt = [];
  size = [];
  mailer = [];
  subject = [];
  text = [];
  html = [];
  text_hash = [];
  attach_name = [];
  attach_hash = [];
  attach_md5 = [];
  attach_content = [];
  url = [];
  assembly = assembly;
  account_id = pos 0;
  status = 1;
  create_time = 0;
  update_time = 0;
  delete_time = 0;
}

two_conditions :
    convert_to_drl (rule_with (codes "Contains::10.0.") (codes "size>9;;rcpt==\"a\""))
    ≡ some (
        codes
          "rule rule_3 \"no spam\" salience 10 {\n\twhen\n\t\tfeature.client_ip.Contains(\"10.0.\") && feature.size>9 && feature.rcpt==\"a\"\n\tthen\n\t\tresult.RuleID=3;\n\t\tresult.Action=4;\n\t\tRetract(\"rule_3\");\n\t\tComplete();\n}\n")
unfolding convert_to_drl join decimal_ℤ split_on format_rule_define cut_on to_lower
two_conditions = refl

define_rendered_example :
    format_rule_define (codes "hasPrefix" ++ b':' ∷ b':' ∷ codes "10.")
    ≡ rendered has_prefix' (codes "10.")
unfolding to_lower
define_rendered_example = define_rendered has_prefix' (codes "hasPrefix") (codes "10.") refl

abbrev bare_rule : FilterRule
bare_rule = rule_with (codes "notEqual::1") []

timeout_exact_example : make_filter_metric_timeout year (pos 2) ≡ pos (life year 2)
timeout_exact_example = timeout_exact year 2 (omega arith)

-- A metric of 293 years gets a negative time-out.
timeout_wraps : make_filter_metric_timeout year (pos 293) ≡ negsuc 9206696073709551615
unfolding make_filter_metric_timeout
timeout_wraps = refl

convert_drops_example :
    ((convert_to_drl bare_rule ≡ none) ↔ (
      ((bare_rule.client_ip ≡ []) ⊎ (format_rule_define bare_rule.client_ip ≡ none))
      × (bare_rule.assembly ≡ [])))
    × (format_rule_define bare_rule.client_ip ≡ none
        → convert_to_drl bare_rule ≡ convert_to_drl (record bare_rule { client_ip = [] }))
convert_drops_example = convert_drops bare_rule
