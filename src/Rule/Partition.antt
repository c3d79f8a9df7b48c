-- ===== src/Rule/Partition.antt =====
-- The two passes of Evaluate, sdk/rule/evaluate.go: neither sees the rules of the other.
use gametrace.Prelude.{
  Bool, true, false, not, ◌≡◌, refl, List, [], ◌∷◌, ◌++◌, arith, select, ap, sym, ◌∙◌, Bool-cases,
  inl, inr, if_true, if_false,
}
use gametrace.Rule.Json.{Gjson}
use gametrace.Rule.Semantic.{Rule}
use gametrace.Rule.Evaluation.{
  NameHit, Result, no_hits, is_name, name_step, name_pass, rule_step, effect_pass, evaluate_rules,
}

module _ (g : Gjson) where
  open g use {Float}

  name_step-skip :
      (r : Rule Float) (names : List NameHit) (doc : g.Result)
      → is_name r.effect.type ≡ false
      → name_step g r names doc ≡ (names, doc)
  unfolding name_step
  name_step-skip r names doc e = ground arith

  name_pass-append :
      (rs qs : List (Rule Float)) (names : List NameHit) (doc : g.Result)
      → name_pass g (rs ++ qs) names doc
        ≡ name_pass g qs (name_pass g rs names doc).0 (name_pass g rs names doc).1
  unfolding name_pass
  name_pass-append [] qs names doc = refl
  name_pass-append (r ∷ rs) qs names doc =
      name_pass-append rs qs (name_step g r names doc).0 (name_step g r names doc).1

  effect_pass-append :
      (rs qs : List (Rule Float)) (res : Result) (doc : g.Result)
      → effect_pass g (rs ++ qs) res doc ≡ effect_pass g qs (effect_pass g rs res doc) doc
  unfolding effect_pass
  effect_pass-append [] qs res doc = refl
  effect_pass-append (r ∷ rs) qs res doc = effect_pass-append rs qs (rule_step g r res doc) doc

  abbrev pub names_rule : Rule Float → Bool
  names_rule r = is_name r.effect.type

  abbrev pub other_rule : Rule Float → Bool
  other_rule r = not (is_name r.effect.type)

  rule_step-skip :
      (r : Rule Float) (res : Result) (doc : g.Result)
      → is_name r.effect.type ≡ true
      → rule_step g r res doc ≡ res
  unfolding rule_step
  rule_step-skip r res doc e = ground arith

  negated_false : {b : Bool} → b ≡ false → not b ≡ true
  negated_false e = ground arith

  negated_true : {b : Bool} → b ≡ true → not b ≡ false
  negated_true e = ground arith

  name_pass-skip :
      (r : Rule Float) (rs : List (Rule Float)) (names : List NameHit) (doc : g.Result)
      → is_name r.effect.type ≡ false
      → name_pass g (r ∷ rs) names doc ≡ name_pass g rs names doc
  unfolding name_pass
  name_pass-skip r rs names doc e =
      ap (λ (q : List NameHit × g.Result). name_pass g rs q.0 q.1) (name_step-skip r names doc e)

  effect_pass-skip :
      (r : Rule Float) (rs : List (Rule Float)) (res : Result) (doc : g.Result)
      → is_name r.effect.type ≡ true
      → effect_pass g (r ∷ rs) res doc ≡ effect_pass g rs res doc
  unfolding effect_pass
  effect_pass-skip r rs res doc e = ap (λ q. effect_pass g rs q doc) (rule_step-skip r res doc e)

  module _ (r : Rule Float) (rs : List (Rule Float)) where
    select_others_name :
        is_name r.effect.type ≡ true → select other_rule (r ∷ rs) ≡ select other_rule rs
    select_others_name e = if_false _ _ (negated_true e)

    select_others_other :
        is_name r.effect.type ≡ false → select other_rule (r ∷ rs) ≡ r ∷ select other_rule rs
    select_others_other e = if_true _ _ (negated_false e)

  name_pass-select :
      (rs : List (Rule Float)) (names : List NameHit) (doc : g.Result)
      → name_pass g (select names_rule rs) names doc ≡ name_pass g rs names doc
  unfolding name_pass
  name_pass-select [] names doc = refl
  name_pass-select (r ∷ rs) names doc = elim (Bool-cases (is_name r.effect.type)) [
    | inl y ↦
        ap (λ xs. name_pass g xs names doc) (if_true _ _ y)
        ∙ name_pass-select rs (name_step g r names doc).0 (name_step g r names doc).1
    | inr n ↦
        ap (λ xs. name_pass g xs names doc) (if_false _ _ n)
        ∙ (name_pass-select rs names doc ∙ sym (name_pass-skip r rs names doc n))
  ]

  name_pass-others :
      (rs : List (Rule Float)) (names : List NameHit) (doc : g.Result)
      → name_pass g (select other_rule rs) names doc ≡ (names, doc)
  unfolding name_pass
  name_pass-others [] names doc = refl
  name_pass-others (r ∷ rs) names doc = elim (Bool-cases (is_name r.effect.type)) [
    | inl y ↦
        ap (λ xs. name_pass g xs names doc) (select_others_name r rs y)
        ∙ name_pass-others rs names doc
    | inr n ↦
        ap (λ xs. name_pass g xs names doc) (select_others_other r rs n)
        ∙ (name_pass-skip r (select other_rule rs) names doc n ∙ name_pass-others rs names doc)
  ]

  effect_pass-select :
      (rs : List (Rule Float)) (res : Result) (doc : g.Result)
      → effect_pass g (select other_rule rs) res doc ≡ effect_pass g rs res doc
  unfolding effect_pass
  effect_pass-select [] res doc = refl
  effect_pass-select (r ∷ rs) res doc = elim (Bool-cases (is_name r.effect.type)) [
    | inl y ↦
        ap (λ xs. effect_pass g xs res doc) (select_others_name r rs y)
        ∙ (effect_pass-select rs res doc ∙ sym (effect_pass-skip r rs res doc y))
    | inr n ↦
        ap (λ xs. effect_pass g xs res doc) (select_others_other r rs n)
        ∙ effect_pass-select rs (rule_step g r res doc) doc
  ]

  effect_pass-names :
      (rs : List (Rule Float)) (res : Result) (doc : g.Result)
      → effect_pass g (select names_rule rs) res doc ≡ res
  unfolding effect_pass
  effect_pass-names [] res doc = refl
  effect_pass-names (r ∷ rs) res doc = elim (Bool-cases (is_name r.effect.type)) [
    | inl y ↦
        ap (λ xs. effect_pass g xs res doc) (if_true _ _ y)
        ∙ (effect_pass-skip r (select names_rule rs) res doc y ∙ effect_pass-names rs res doc)
    | inr n ↦ ap (λ xs. effect_pass g xs res doc) (if_false _ _ n) ∙ effect_pass-names rs res doc
  ]

  -- A plugin may declare its rules in any interleaving: with the name rules moved before the others, in
  -- their own order, Evaluate finds the same.
  pub evaluate_rules-partition :
      (rs : List (Rule Float)) (doc : g.Result)
      → evaluate_rules g (select names_rule rs ++ select other_rule rs) doc
        ≡ evaluate_rules g rs doc
  unfolding evaluate_rules
  evaluate_rules-partition rs doc =
      ap run (
        name_pass-append (select names_rule rs) (select other_rule rs) [] doc
        ∙ (name_pass-others rs _ _ ∙ name_pass-select rs [] doc))
      ∙ effects _ _
    where
      run : List NameHit × g.Result → Result
      run q =
          effect_pass g (select names_rule rs ++ select other_rule rs)
            (record no_hits { names = q.0 }) q.1

      effects :
          (res : Result) (d : g.Result)
          → effect_pass g (select names_rule rs ++ select other_rule rs) res d
            ≡ effect_pass g rs res d
      effects res d =
          effect_pass-append (select names_rule rs) (select other_rule rs) res d
          ∙ (ap (λ q. effect_pass g (select other_rule rs) q d) (effect_pass-names rs res d)
              ∙ effect_pass-select rs res d)
