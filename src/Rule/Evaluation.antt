-- ===== src/Rule/Evaluation.antt =====
-- sdk/rule/evaluate.go: a plugin's rules over one event. The name rules run first, and what the first
-- of them finds is put in the document as _meta.msg_name before the others run.
use gametrace.Prelude.{
  ℕ, zero, suc, String, Bool, true, false, not, ◌&&◌, ◌||◌, List, [], ◌∷◌, ◌++◌, Option, none, some,
  is_nil, test, ℕ_discrete, if◌then◌else◌,
}
use gametrace.Prelude.Text.{text_dec}
use gametrace.Rule.Json.{Any, Fields, Gjson, null, string, object, end, field}
use gametrace.Rule.Issue.{is_empty}
use gametrace.Rule.Predicate.{evaluate}
use gametrace.Rule.Semantic.{Semantic, EffectType, pair, annotate, name, PairSide, Rule}

pub record PairHit : Type 0 where
  pub rule_id : String
  pub key : String
  pub side : ℕ

pub record NameHit : Type 0 where
  pub rule_id : String
  pub value : String

pub record Result : Type 0 where
  pub semantics : List Semantic
  pub pairs : List PairHit
  pub names : List NameHit

abbrev pub no_hits : Result
no_hits = record { semantics = []; pairs = []; names = [] }

unfoldable pub Semantic-discrete : Discrete Semantic
Semantic-discrete = hlevel (text_dec)

-- MatchPair; a side is an index, so it is never below 0.
unfoldable pub match_pair : PairHit → PairHit → Bool
match_pair a b =
    not (is_empty a.rule_id)
    && (test (text_dec a.rule_id b.rule_id)
        && (test (text_dec a.key b.key) && not (test (ℕ_discrete a.side b.side))))

unfoldable pub contains_semantic : List Semantic → Semantic → Bool
contains_semantic [] s = false
contains_semantic (x ∷ xs) s = test (Semantic-discrete x s) || contains_semantic xs s

-- A map[string]any of encoding/json: reading and writing a key.
abbrev pub field_of : {F : Type 0} → String → Fields F → Option (Any F)
field_of k end = none
field_of k (field n v fs) = let rest = field_of k fs in if test (text_dec n k) then some v else rest

abbrev pub set_field : {F : Type 0} → String → Any F → Fields F → Fields F
set_field k v end = field k v end
set_field k v (field n w fs) =
    let rest = set_field k v fs in if test (text_dec n k) then field n v fs else field n w rest

-- The document of an object that has the message's name in its _meta; `none` for one whose _meta is no
-- object.
abbrev pub with_name : {F : Type 0} → String → Fields F → Option (Any F) → Option (Any F)
with_name n root none =
    some (object (set_field "_meta" (object (field "msg_name" (string n) end)) root))
with_name n root (some null) =
    some (object (set_field "_meta" (object (field "msg_name" (string n) end)) root))
with_name n root (some (object meta)) =
    some (object (set_field "_meta" (object (set_field "msg_name" (string n) meta)) root))
with_name n root (some v) = none

abbrev pub patch_any : {F : Type 0} → String → Any F → Option (Any F)
patch_any n (object root) = with_name n root (field_of "_meta" root)
patch_any n _ = none

abbrev pub is_name : EffectType → Bool
is_name name = true
is_name _ = false

module _ (g : Gjson) where
  open g use {Float, get, result_exists, text, value, parse_any}

  -- The loop of evalPair over the sides.
  unfoldable pub eval_sides : String → ℕ → List (PairSide Float) → g.Result → Option PairHit
  eval_sides id i [] doc = none
  eval_sides id i (s ∷ ss) doc =
      let rest = eval_sides id (suc i) ss doc in
      if not (evaluate g s.predicate doc)
      then rest
      else if not (result_exists (get doc s.key))
      then none
      else some (record { rule_id = id; key = text (get doc s.key); side = i })

  unfoldable pub eval_pair : Rule Float → g.Result → Option PairHit
  eval_pair r doc = eval_sides r.id zero r.effect.sides doc

  unfoldable pub eval_name : Rule Float → g.Result → Option String
  eval_name r doc =
      if not (result_exists (get doc r.effect.key))
      then none
      else if is_empty (text (get doc r.effect.key))
      then none
      else some (text (get doc r.effect.key))

  -- The document after patchMsgName, the old one where that does not succeed.
  unfoldable pub patch_msg_name : String → g.Result → g.Result
  patch_msg_name n doc = elim (patch_any n (value doc)) [
    | none ↦ doc
    | some v ↦ elim (parse_any v) [ none ↦ doc | some patched ↦ patched ]
  ]

  -- `r.When != nil && r.When.Evaluate(doc)`
  abbrev pub applies : Rule Float → g.Result → Bool
  applies r doc = elim r.condition [ none ↦ false | some p ↦ evaluate g p doc ]

  -- A name rule in the first pass: the names that were found so far, and the document.
  unfoldable pub name_step : Rule Float → List NameHit → g.Result → List NameHit × g.Result
  name_step r names doc =
      if not (is_name r.effect.type)
      then (names, doc)
      else if not (applies r doc)
      then (names, doc)
      else elim (eval_name r doc) [
        | none ↦ (names, doc)
        | some v ↦ (
          names ++ record { rule_id = r.id; value = v } ∷ [],
          if is_nil names then patch_msg_name v doc else doc,
        )
      ]

  unfoldable pub name_pass : List (Rule Float) → List NameHit → g.Result → List NameHit × g.Result
  name_pass [] names doc = (names, doc)
  name_pass (r ∷ rs) names doc =
      let (found, patched) = name_step r names doc in name_pass rs found patched

  abbrev pub effect_step : EffectType → Rule Float → Result → g.Result → Result
  effect_step pair r res doc = elim (eval_pair r doc) [
    | none ↦ res
    | some hit ↦ record res { pairs = res.pairs ++ hit ∷ [] }
  ]
  effect_step annotate r res doc =
      if contains_semantic res.semantics r.effect.semantic
      then res
      else record res { semantics = res.semantics ++ r.effect.semantic ∷ [] }
  effect_step _ r res doc = res

  -- A rule in the second pass.
  unfoldable pub rule_step : Rule Float → Result → g.Result → Result
  rule_step r res doc = if applies r doc then effect_step r.effect.type r res doc else res

  unfoldable pub effect_pass : List (Rule Float) → Result → g.Result → Result
  effect_pass [] res doc = res
  effect_pass (r ∷ rs) res doc = effect_pass rs (rule_step r res doc) doc

  -- Evaluate on the document that the event's JSON parses to.
  unfoldable pub evaluate_rules : List (Rule Float) → g.Result → Result
  evaluate_rules rules doc =
      let (names, patched) = name_pass rules [] doc in
      effect_pass rules (record no_hits { names = names }) patched
