-- ===== src/Rule/Tests.antt =====
-- Runs of sdk/rule over sample events.
use gametrace.Prelude.{ℕ_discrete, ℕ, ◌≡◌, ◌↔◌, refl, List, [], ◌∷◌, some}
use gametrace.Prelude.Text.{text_dec}
use gametrace.Rule.Json.{string}
use gametrace.Rule.Predicate.{
  Predicate, node, nil, eq, eval_leaf, evaluate, eval_value, eval_op, literal, eq_match, eq_typed,
}
use gametrace.Rule.Validity.{IsValid, validate, validate_leaf, validate-IsValid}
use gametrace.Rule.Semantic.{
  validate_id, validate_when, validate_effect, validate_pair, validate_sides, id_matches, Semantic,
  request, pair, annotate, name, Rule, validate_rule,
}
use gametrace.Rule.Declared.{IsRule, validate_rule-IsRule}
use gametrace.Rule.Evaluation.{
  PairHit, contains_semantic, evaluate_rules, name_pass, effect_pass, name_step, rule_step,
  eval_name, eval_pair, eval_sides, patch_msg_name, Semantic-discrete, Result,
}
use gametrace.Rule.Effects.{NoRepeat, annotated, evaluate_rules-labels}
use gametrace.Rule.Sample.{sample, login}

abbrev is_login : Predicate ℕ
is_login = node nil nil "op" eq (string "login")

abbrev is_answer : Predicate ℕ
is_answer = node nil nil "op" eq (string "answer")

abbrev request_rule : Rule ℕ
request_rule = record {
  id = "game.login";
  condition = some is_login;
  effect = record { type = annotate; key = ""; sides = []; semantic = request };
}

abbrev name_rule : Rule ℕ
name_rule = record {
  id = "game.name";
  condition = some is_login;
  effect = record { type = name; key = "op"; sides = []; semantic = request };
}

abbrev pair_rule : Rule ℕ
pair_rule = record {
  id = "game.pair";
  condition = some is_login;
  effect = record {
    type = pair;
    key = "";
    sides =
        record { predicate = is_login; key = "seq" }
        ∷ record { predicate = is_answer; key = "ref" }
        ∷ [];
    semantic = request;
  };
}

abbrev plugin_rules : List (Rule ℕ)
plugin_rules = request_rule ∷ name_rule ∷ pair_rule ∷ []

abbrev found_all : Result
found_all = record {
  semantics = request ∷ [];
  pairs = record { rule_id = "game.pair"; key = "7"; side = 0 } ∷ [];
  names = record { rule_id = "game.name"; value = "login" } ∷ [];
}

evaluate_runs : evaluate_rules sample plugin_rules login ≡ found_all
unfolding evaluate_rules name_pass effect_pass name_step rule_step eval_name eval_pair eval_sides
    patch_msg_name contains_semantic Semantic-discrete evaluate eval_leaf eval_value eval_op
    eq_match eq_typed literal text_dec
evaluate_runs = refl

validate-IsValid_example : (validate sample is_login ≡ []) ↔ IsValid sample is_login
validate-IsValid_example = validate-IsValid sample is_login

validate_rule-IsRule_example : (validate_rule sample pair_rule ≡ []) ↔ IsRule sample pair_rule
validate_rule-IsRule_example = validate_rule-IsRule sample pair_rule

evaluate_rules-labels_example :
    NoRepeat (evaluate_rules sample plugin_rules login).semantics
    × ((s : Semantic)
        → contains_semantic (evaluate_rules sample plugin_rules login).semantics s
          ≡ annotated sample plugin_rules s (name_pass sample plugin_rules [] login).1)
evaluate_rules-labels_example = evaluate_rules-labels sample plugin_rules login

abbrev asked : PairHit
asked = record { rule_id = "game.pair"; key = "7"; side = 0 }

abbrev answered : PairHit
answered = record { rule_id = "game.pair"; key = "7"; side = 1 }

pair_rule-valid : validate_rule sample pair_rule ≡ []
unfolding validate_rule validate_id validate_when validate_effect validate_pair validate_sides
    validate validate_leaf id_matches text_dec ℕ_discrete
pair_rule-valid = refl
