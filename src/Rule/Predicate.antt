-- ===== src/Rule/Predicate.antt =====
-- Predicate and its evaluation, sdk/rule/predicate.go.
use gametrace.Prelude.{
  String, Bool, true, false, not, ◌&&◌, ◌||◌, List, [], ◌∷◌, Option, none, some, if◌then◌else◌,
  test,
}
use gametrace.Prelude.Text.{text_dec, text_lt, has_prefix, has_suffix, contains as text_contains}
use gametrace.Rule.Json.{
  Any, Gjson, JsonType, null_type, false_type, true_type, number_type, string_type,
}

-- Op is a string: `unset` is the empty one, `unknown` one outside the closed set.
pub data Op : Type 0 where
  eq neq exists not_exists gt gte lt lte is_in not_in contains prefix suffix unset : Op
  unknown : String → Op

-- A node has the lists `all` and `any` and the leaf's path, op and value; an absent value is `null`.
mutual
  pub data Predicate (F : Type 0) : Type 0 where
    node : Predicates F → Predicates F → String → Op → Any F → Predicate F

  pub data Predicates (F : Type 0) : Type 0 where
    nil : Predicates F
    cons : Predicate F → Predicates F → Predicates F

-- An integer as the code uses it for a comparison: below, at or above 0.
pub data Sign : Type 0 where
  below level above : Sign

unfoldable pub sign_allows : Op → Sign → Bool
sign_allows gt above = true
sign_allows gte level = true
sign_allows gte above = true
sign_allows lt below = true
sign_allows lte below = true
sign_allows lte level = true
sign_allows _ _ = false

module _ (g : Gjson) where
  open g use {
    Float, float_eq, float_lt, Result, get, result_exists, type_of, num, str, truth, is_array,
    elements, parse_any, no_result,
  }

  unfoldable pub literal : Any Float → Result
  literal v = elim (parse_any v) [ none ↦ no_result | some r ↦ r ]

  abbrev pub same_truth : Bool → Bool → Bool
  same_truth true b = b
  same_truth false b = not b

  -- The arms of eqMatch: the type of the literal, then that of the result.
  unfoldable pub eq_typed : JsonType → JsonType → Result → Result → Bool
  eq_typed null_type null_type res lit = result_exists res
  eq_typed number_type number_type res lit = float_eq (num res) (num lit)
  eq_typed string_type string_type res lit = test (text_dec (str res) (str lit))
  eq_typed true_type true_type res lit = same_truth (truth res) (truth lit)
  eq_typed true_type false_type res lit = same_truth (truth res) (truth lit)
  eq_typed false_type true_type res lit = same_truth (truth res) (truth lit)
  eq_typed false_type false_type res lit = same_truth (truth res) (truth lit)
  eq_typed _ _ res lit = false

  unfoldable pub eq_match : Result → Result → Bool
  eq_match res lit = eq_typed (type_of lit) (type_of res) res lit

  unfoldable pub some_match : List Result → Result → Bool
  some_match [] item = false
  some_match (e ∷ es) item = eq_match e item || some_match es item

  unfoldable pub array_contains : Result → Result → Bool
  array_contains arr item = is_array arr && some_match (elements arr) item

  -- The comparison of orderMatch, `none` for types that have no order.
  unfoldable pub compare_typed : JsonType → JsonType → Result → Result → Option Sign
  compare_typed number_type number_type res lit = some (
      if float_lt (num res) (num lit)
      then below
      else if float_lt (num lit) (num res)
      then above
      else level)
  compare_typed string_type string_type res lit = some (
      if text_lt (str res) (str lit)
      then below
      else if text_lt (str lit) (str res)
      then above
      else level)
  compare_typed _ _ res lit = none

  unfoldable pub order_match : Op → Result → Result → Bool
  order_match op res lit = elim (compare_typed (type_of res) (type_of lit) res lit) [
    | none ↦ false
    | some sign ↦ sign_allows op sign
  ]

  -- A test of two strings, false at any other types.
  unfoldable pub on_strings :
      (String → String → Bool) → JsonType → JsonType → Result → Result → Bool
  on_strings f string_type string_type res lit = f (str res) (str lit)
  on_strings f _ _ res lit = false

  abbrev pub both_strings : JsonType → JsonType → Bool
  both_strings string_type string_type = true
  both_strings _ _ = false

  -- The second switch of evalLeaf, for a value that is there.
  unfoldable pub eval_op : Op → Result → Result → Bool
  eval_op eq res lit = eq_match res lit
  eval_op neq res lit = not (eq_match res lit)
  eval_op gt res lit = order_match gt res lit
  eval_op gte res lit = order_match gte res lit
  eval_op lt res lit = order_match lt res lit
  eval_op lte res lit = order_match lte res lit
  eval_op is_in res lit = array_contains lit res
  eval_op not_in res lit = not (array_contains lit res)
  eval_op contains res lit =
      if both_strings (type_of res) (type_of lit)
      then text_contains (str res) (str lit)
      else array_contains res lit
  eval_op prefix res lit = on_strings has_prefix (type_of res) (type_of lit) res lit
  eval_op suffix res lit = on_strings has_suffix (type_of res) (type_of lit) res lit
  eval_op _ res lit = false

  unfoldable pub eval_value : Op → Result → Result → Bool
  eval_value exists res lit = result_exists res
  eval_value not_exists res lit = not (result_exists res)
  eval_value op res lit = result_exists res && eval_op op res lit

  unfoldable pub eval_leaf : String → Op → Any Float → Result → Bool
  eval_leaf path op v doc = eval_value op (get doc path) (literal v)

  unfoldable mutual
    pub evaluate : Predicate Float → Result → Bool
    evaluate (node (cons p ps) nil path op v) doc = all_hold (cons p ps) doc
    evaluate (node nil nil path op v) doc = eval_leaf path op v doc
    evaluate (node all (cons q qs) path op v) doc = any_holds (cons q qs) doc

    pub all_hold : Predicates Float → Result → Bool
    all_hold nil doc = true
    all_hold (cons p ps) doc = evaluate p doc && all_hold ps doc

    pub any_holds : Predicates Float → Result → Bool
    any_holds nil doc = false
    any_holds (cons p ps) doc = evaluate p doc || any_holds ps doc
