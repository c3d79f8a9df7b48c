-- ===== src/Rule/Effects.antt =====
-- What an evaluation of sdk/rule/evaluate.go finds, and which hits pair up.
use gametrace.Prelude.{
  ℕ, zero, suc, String, Bool, true, false, ◌&&◌, ◌||◌, ◌≡◌, refl, List, [], ◌∷◌, ◌++◌, Option, none,
  some, arith, test, ◌<◌, ◌+◌, All, length, sym, Bool-cases, inl, inr, All-append, subst, if_true,
  if_false,
}
use gametrace.Rule.Json.{Gjson}
use gametrace.Rule.Semantic.{
  Semantic, EffectType, pair, annotate, name, unset, unknown, PairSide, Rule,
}
use gametrace.Rule.Declared.{IsEffect, IsRule}
use gametrace.Rule.Evaluation.{
  PairHit, Result, no_hits, Semantic-discrete, match_pair, contains_semantic, eval_sides, eval_pair,
  applies, name_pass, effect_step, rule_step, effect_pass, evaluate_rules,
}

-- MatchPair does not depend on the order of its arguments.
pub match_pair_comm : (a b : PairHit) → match_pair a b ≡ match_pair b a
unfolding match_pair
match_pair_comm a b = ground arith

-- Hits on two sides pair up one to one: a hit that pairs with one of two paired hits does not pair with
-- the other.
pub match_pair-exclusive :
    (a b c : PairHit)
    → a.side < 2
    → b.side < 2
    → c.side < 2
    → match_pair a b ≡ true
    → match_pair b c ≡ true
    → match_pair a c ≡ false
unfolding match_pair
match_pair-exclusive a b c ha hb hc ab bc = ground arith

contains-append :
    (xs : List Semantic) (x s : Semantic)
    → contains_semantic (xs ++ x ∷ []) s ≡ (contains_semantic xs s || test (Semantic-discrete x s))
unfolding contains_semantic
contains-append [] x s = ground arith
contains-append (y ∷ ys) x s = ground (arith, contains-append ys x s)

-- No label occurs twice.
abbrev pub NoRepeat : List Semantic → Type 0
NoRepeat [] = Unit {0}
NoRepeat (x ∷ xs) = (contains_semantic xs x ≡ false) × NoRepeat xs

NoRepeat-append :
    (xs : List Semantic) (x : Semantic)
    → NoRepeat xs
    → contains_semantic xs x ≡ false
    → NoRepeat (xs ++ x ∷ [])
unfolding contains_semantic
NoRepeat-append [] x n h = (refl, tt)
NoRepeat-append (y ∷ ys) x n h =
    (ground (arith, contains-append ys x y, n.0), NoRepeat-append ys x n.1 (ground arith))

module _ (g : Gjson) where
  open g use {Float}

  -- The labels that the annotate rules put on a document, judged one by one.
  abbrev pub labels : Rule Float → Semantic → g.Result → Bool
  labels r s doc = elim r.effect.type [
    | annotate ↦ applies g r doc && test (Semantic-discrete r.effect.semantic s)
    | _ ↦ false
  ]

  abbrev pub annotated : List (Rule Float) → Semantic → g.Result → Bool
  annotated [] s doc = false
  annotated (r ∷ rs) s doc = labels r s doc || annotated rs s doc

  rule_step-labels :
      (r : Rule Float) (res : Result) (doc : g.Result) (s : Semantic)
      → contains_semantic (rule_step g r res doc).semantics s
        ≡ (contains_semantic res.semantics s || labels r s doc)
  unfolding rule_step
  rule_step-labels r res doc s = ground (arith, contains-append res.semantics r.effect.semantic s)

  rule_step-NoRepeat :
      (r : Rule Float) (res : Result) (doc : g.Result)
      → NoRepeat res.semantics
      → NoRepeat (rule_step g r res doc).semantics
  unfolding rule_step
  rule_step-NoRepeat r res doc n = ground (arith, NoRepeat-append res.semantics r.effect.semantic n)

  effect_pass-labels :
      (rs : List (Rule Float)) (res : Result) (doc : g.Result) (s : Semantic)
      → contains_semantic (effect_pass g rs res doc).semantics s
        ≡ (contains_semantic res.semantics s || annotated rs s doc)
  unfolding effect_pass
  effect_pass-labels [] res doc s = ground arith
  effect_pass-labels (r ∷ rs) res doc s =
      ground
        (arith, rule_step-labels r res doc s, effect_pass-labels rs (rule_step g r res doc) doc s)

  effect_pass-NoRepeat :
      (rs : List (Rule Float)) (res : Result) (doc : g.Result)
      → NoRepeat res.semantics
      → NoRepeat (effect_pass g rs res doc).semantics
  unfolding effect_pass
  effect_pass-NoRepeat [] res doc n = n
  effect_pass-NoRepeat (r ∷ rs) res doc n =
      effect_pass-NoRepeat rs (rule_step g r res doc) doc (rule_step-NoRepeat r res doc n)

  -- Evaluate gives an event each label once, and exactly the labels of the annotate rules whose
  -- conditions hold in the document that the first pass leaves, also of rules that Validate refuses.
  pub evaluate_rules-labels :
      (rs : List (Rule Float)) (doc : g.Result)
      → NoRepeat (evaluate_rules g rs doc).semantics
        × ((s : Semantic)
            → contains_semantic (evaluate_rules g rs doc).semantics s
              ≡ annotated rs s (name_pass g rs [] doc).1)
  unfolding evaluate_rules contains_semantic
  evaluate_rules-labels rs doc =
      let start : Result = record no_hits { names = (name_pass g rs [] doc).0 } in
      (
        effect_pass-NoRepeat rs start (name_pass g rs [] doc).1 tt,
        λ s. effect_pass-labels rs start (name_pass g rs [] doc).1 s,
      )

  -- Every hit is on a side of the rule, at a key that is there.
  eval_sides-lt :
      (id : String) (i : ℕ) (ss : List (PairSide Float)) (doc : g.Result) (h : PairHit)
      → eval_sides g id i ss doc ≡ some h
      → h.side < i + length ss
  unfolding eval_sides
  eval_sides-lt id i [] doc h e = cc
  eval_sides-lt id i (s ∷ ss) doc h e = ground (arith, eval_sides-lt id (suc i) ss doc h)

  abbrev OnTwo : PairHit → Type 0
  OnTwo h = h.side < 2

  two_sided : (r : Rule Float) → IsRule g r → r.effect.type ≡ pair → length r.effect.sides ≡ 2
  two_sided r w e = (subst (λ t. IsEffect g t r.effect) e w.effective).0

  pair_step-OnTwo :
      (r : Rule Float) (res : Result) (doc : g.Result) (o : Option PairHit)
      → eval_pair g r doc ≡ o
      → length r.effect.sides ≡ 2
      → All OnTwo res.pairs
      → All OnTwo
          (elim o as (λ x. Result) [
            | none ↦ res
            | some hit ↦ record res { pairs = res.pairs ++ hit ∷ [] }
          ]).pairs
  unfolding eval_pair
  pair_step-OnTwo r res doc none e l a = a
  pair_step-OnTwo r res doc (some hit) e l a =
      All-append OnTwo res.pairs (hit ∷ []) a
        (omega (arith, eval_sides-lt r.id zero r.effect.sides doc hit e), tt)

  annotate_step-OnTwo :
      (r : Rule Float) (res : Result) (doc : g.Result)
      → All OnTwo res.pairs
      → All OnTwo (effect_step g annotate r res doc).pairs
  annotate_step-OnTwo r res doc a =
      elim (Bool-cases (contains_semantic res.semantics r.effect.semantic)) [
        | inl y ↦ subst (λ (q : Result). All OnTwo q.pairs) (sym (if_true _ _ y)) a
        | inr n ↦ subst (λ (q : Result). All OnTwo q.pairs) (sym (if_false _ _ n)) a
      ]

  effect_step-OnTwo :
      (r : Rule Float) (res : Result) (doc : g.Result) (t : EffectType)
      → r.effect.type ≡ t
      → IsRule g r
      → All OnTwo res.pairs
      → All OnTwo (effect_step g t r res doc).pairs
  effect_step-OnTwo r res doc pair e w a =
      pair_step-OnTwo r res doc (eval_pair g r doc) refl (two_sided r w e) a
  effect_step-OnTwo r res doc annotate e w a = annotate_step-OnTwo r res doc a
  effect_step-OnTwo r res doc name e w a = a
  effect_step-OnTwo r res doc unset e w a = a
  effect_step-OnTwo r res doc (unknown t) e w a = a

  rule_step-OnTwo :
      (r : Rule Float) (res : Result) (doc : g.Result)
      → IsRule g r
      → All OnTwo res.pairs
      → All OnTwo (rule_step g r res doc).pairs
  unfolding rule_step
  rule_step-OnTwo r res doc w a = elim (Bool-cases (applies g r doc)) [
    | inl y ↦
        subst (λ (q : Result). All OnTwo q.pairs) (sym (if_true _ _ y))
          (effect_step-OnTwo r res doc r.effect.type refl w a)
    | inr n ↦ subst (λ (q : Result). All OnTwo q.pairs) (sym (if_false _ _ n)) a
  ]

  effect_pass-OnTwo :
      (rs : List (Rule Float)) (res : Result) (doc : g.Result)
      → All (IsRule g) rs
      → All OnTwo res.pairs
      → All OnTwo (effect_pass g rs res doc).pairs
  unfolding effect_pass
  effect_pass-OnTwo [] res doc w a = a
  effect_pass-OnTwo (r ∷ rs) res doc w a =
      effect_pass-OnTwo rs (rule_step g r res doc) doc w.1 (rule_step-OnTwo r res doc w.0 a)

  -- The pair hits that Evaluate finds with valid rules are on one of the two sides.
  pub evaluate_rules-two_sides :
      (rs : List (Rule Float)) (doc : g.Result)
      → All (IsRule g) rs
      → All OnTwo (evaluate_rules g rs doc).pairs
  unfolding evaluate_rules
  evaluate_rules-two_sides rs doc w =
      effect_pass-OnTwo rs (record no_hits { names = (name_pass g rs [] doc).0 })
        (name_pass g rs [] doc).1 w tt
