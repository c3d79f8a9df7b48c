-- ===== src/Rule/Meaning.antt =====
-- What predicates of sdk/rule/predicate.go mean.
use gametrace.Prelude.{
  String, Bool, true, false, not, ◌&&◌, ◌||◌, ◌≡◌, refl, none, some, arith, ◌↔◌,
}
use gametrace.Rule.Json.{Any, Gjson}
use gametrace.Rule.Predicate.{
  Op, exists, not_exists, gt, gte, lt, lte, sign_allows, literal, compare_typed, order_match,
  eval_value, eval_leaf,
}

module _ (g : Gjson) where
  open g use {Float, Result, get, result_exists, type_of}

  -- A leaf whose path has no value holds for `not_exists` alone.
  pub eval_leaf-absent :
      (path : String) (op : Op) (v : Any Float) (doc : Result)
      → result_exists (get doc path) ≡ false
      → (eval_leaf g path op v doc ≡ true) ↔ (op ≡ not_exists)
  unfolding eval_leaf eval_value
  eval_leaf-absent path op v doc h = (present op, λ e. ground (arith, h))
    where
      present : (o : Op) → eval_value g o (get doc path) (literal g v) ≡ true → o ≡ not_exists
      present exists k = ground arith
      present not_exists k = refl
      present _ k = ground arith

  -- The two values can be ordered: both are numbers, or both are strings.
  abbrev pub is_comparable : Result → Result → Bool
  is_comparable res lit = elim (compare_typed g (type_of res) (type_of lit) res lit) [
    | none ↦ false
    | some _ ↦ true
  ]

  -- On values that can be ordered exactly one of gt and lte holds and exactly one of lt and gte, and gt
  -- excludes lt; on other values none of the four holds.
  pub order_match-total :
      (res lit : Result)
      → (order_match g lte res lit ≡ (is_comparable res lit && not (order_match g gt res lit)))
        × (order_match g gte res lit ≡ (is_comparable res lit && not (order_match g lt res lit)))
        × ((order_match g gt res lit && order_match g lt res lit) ≡ false)
        × ((is_comparable res lit || order_match g gt res lit || order_match g lt res lit)
            ≡ is_comparable res lit)
  unfolding order_match sign_allows
  order_match-total res lit = ground arith
