-- ===== src/Rule/Declared.antt =====
-- The rules that the validation of sdk/rule/rule.go lets a plugin declare.
use gametrace.Prelude.{
  ℕ, zero, suc, true, not, ◌≡◌, ◌≢◌, ◌↔◌, refl, List, [], ◌∷◌, Option, none, some, arith, map, All,
  length, ◌==◌,
}
use gametrace.Rule.Json.{Gjson}
use gametrace.Rule.Issue.{
  issue, under, indexed, when, is_empty, map-eq-nil, append-eq-nil, when-eq-nil, rule_id_duplicate,
  pair_sides_limit, pair_key_required,
}
use gametrace.Rule.Predicate.{Predicate}
use gametrace.Rule.Validity.{validate, IsValid, validate-IsValid}
use gametrace.Rule.Report.{Distinct, report_loop_iff}
use gametrace.Prelude.Text.{codes}
use gametrace.Rule.Ids.{Dotted, IsLabel, id_matches-Dotted, sem_closed-IsLabel}
use gametrace.Rule.Semantic.{
  Semantic, unset, unknown, EffectType, pair, annotate, name, PairSide, Effect, Rule, sem_closed,
  validate_sides, validate_pair, validate_annotate, validate_name, validate_effect, validate_id,
  validate_when, validate_rule, rules_report,
}

module _ (g : Gjson) where
  open g use {Float}

  -- A side has a key and a condition that may be declared.
  pub record IsSide (s : PairSide Float) : Type 0 where
    pub keyed : s.key ≢ ""
    pub judged : IsValid g s.predicate

  abbrev pub IsEffect : EffectType → Effect Float → Type 0
  IsEffect pair e = (length e.sides ≡ 2) × All IsSide e.sides
  IsEffect annotate e = IsLabel e.semantic
  IsEffect name e = e.key ≢ ""
  IsEffect unset e = ⊥
  IsEffect (unknown t) e = ⊥

  pub record IsRule (r : Rule Float) : Type 0 where
    pub identified : (r.id ≢ "") × Dotted (codes r.id)
    pub conditional : (p : Predicate Float) × (r.condition ≡ some p) × IsValid g p
    pub effective : IsEffect r.effect.type r.effect

  sides_sound : (i : ℕ) (ss : List (PairSide Float)) → validate_sides g i ss ≡ [] → All IsSide ss
  unfolding validate_sides
  sides_sound i [] h = tt
  sides_sound i (s ∷ ss) h =
      let (key, rest) =
        append-eq-nil (when (is_empty s.key) (issue pair_key_required (indexed "effect.sides" i))) _
          h in
      let (own, later) =
        append-eq-nil (map (under (indexed "effect.sides" i)) (validate g s.predicate)) _ rest in
      (
        record {
          keyed = λ e. ground (arith, when-eq-nil _ _ key);
          judged =
              (validate-IsValid g s.predicate).0
                (map-eq-nil (under (indexed "effect.sides" i)) (validate g s.predicate) own);
        },
        sides_sound (suc i) ss later,
      )

  sides_complete : (i : ℕ) (ss : List (PairSide Float)) → All IsSide ss → validate_sides g i ss ≡ []
  unfolding validate_sides
  sides_complete i [] w = refl
  sides_complete i (s ∷ ss) w = ground (
    arith,
    w.0.keyed,
    (validate-IsValid g s.predicate).1 w.0.judged,
    sides_complete (suc i) ss w.1,
  )

  annotate_iff : (s : Semantic) → (validate_annotate g s ≡ []) ↔ (sem_closed s ≡ true)
  unfolding validate_annotate
  annotate_iff unset = ((λ h. cc), (λ h. cc))
  annotate_iff _ = ((λ h. ground arith), (λ h. ground arith))

  effect_sound : (t : EffectType) (e : Effect Float) → validate_effect g t e ≡ [] → IsEffect t e
  unfolding validate_effect validate_pair validate_name
  effect_sound pair e h =
      let (two, rest) =
        append-eq-nil (when (not (length e.sides == 2)) (issue pair_sides_limit "effect.sides")) _
          h in
      (ground (arith, when-eq-nil _ _ two), sides_sound zero e.sides rest)
  effect_sound annotate e h = (sem_closed-IsLabel e.semantic).0 ((annotate_iff e.semantic).0 h)
  effect_sound name e h = λ k. ground (arith, when-eq-nil _ _ h)
  effect_sound unset e h = cc
  effect_sound (unknown t) e h = cc

  effect_complete : (t : EffectType) (e : Effect Float) → IsEffect t e → validate_effect g t e ≡ []
  unfolding validate_effect validate_pair validate_name
  effect_complete pair e w = ground (arith, sides_complete zero e.sides w.1)
  effect_complete annotate e w = (annotate_iff e.semantic).1 ((sem_closed-IsLabel e.semantic).1 w)
  effect_complete name e w = ground arith
  effect_complete unset e w = elim w [ ]
  effect_complete (unknown t) e w = elim w [ ]

  condition_sound :
      (c : Option (Predicate Float))
      → validate_when g c ≡ []
      → (p : Predicate Float) × (c ≡ some p) × IsValid g p
  unfolding validate_when
  condition_sound none h = cc
  condition_sound (some p) h =
      (p, refl, (validate-IsValid g p).0 (map-eq-nil (under "when.") (validate g p) h))

  -- Rule.Validate reports nothing exactly for the rules with an id of segments of lower-case letters, digits
  -- and underscores, with a dot between each two, that begin with a letter; a condition that may be
  -- declared; and an effect with what its type needs: two sides, each with a key and a condition that may
  -- be declared, one of the four labels, or a key.
  pub validate_rule-IsRule : (r : Rule Float) → (validate_rule g r ≡ []) ↔ IsRule r
  unfolding validate_rule validate_id validate_when
  validate_rule-IsRule r = (sound, complete)
    where
      sound : validate_rule g r ≡ [] → IsRule r
      sound h =
          let (id, rest) = append-eq-nil (validate_id g r.id) _ h in
          let (condition, effect) = append-eq-nil (validate_when g r.condition) _ rest in
          record {
            identified = (λ e. ground arith, (id_matches-Dotted r.id).0 (ground arith));
            conditional = condition_sound r.condition condition;
            effective = effect_sound r.effect.type r.effect effect;
          }

      complete : IsRule r → validate_rule g r ≡ []
      complete w = ground (
        arith,
        w.identified,
        (id_matches-Dotted r.id).1 w.identified.1,
        w.conditional,
        (validate-IsValid g w.conditional.0).1 w.conditional.2,
        effect_complete r.effect.type r.effect w.effective,
      )

  -- RulesReport reports nothing exactly when every rule is such a rule and no two have the same id.
  pub rules_report_iff :
      (rules : List (Rule Float))
      → (rules_report g rules ≡ []) ↔ (
          All (λ r. validate_rule g r ≡ []) rules
          × Distinct "semantic_rules" rule_id_duplicate (λ r. r.id) (validate_rule g) rules)
  unfolding rules_report
  rules_report_iff =
      report_loop_iff "semantic_rules" rule_id_duplicate (λ r. r.id) (validate_rule g)
        (λ r h. ((validate_rule-IsRule r).0 h).identified.0)
