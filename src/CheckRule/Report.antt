-- ===== src/CheckRule/Report.antt =====
-- What the checks of pkg/checkrule/checkrule.go establish for a rule and for a list of rules.
use gametrace.Prelude.{
  ◌%◌, ℕ, true, false, ◌≡◌, ◌≢◌, ◌↔◌, List, [], arith, map, length, ltb, ◌≤◌, ◌*◌, ◌⊎◌, inl, inr,
  All, Bool-cases, ap, sym, if_true, if_false, ◌∙◌,
}
use gametrace.Prelude.Text.{codes}
use gametrace.Rule.Json.{Gjson}
use gametrace.Rule.Issue.{
  issue, when, is_empty, map-eq-nil, append-eq-nil, when-eq-nil, check_id_required,
  check_id_duplicate, check_name_required, check_cooldown_range, check_context_range,
  check_title_too_long, check_too_many_rules,
}
use gametrace.Rule.Validity.{IsValid, validate-IsValid}
use gametrace.Rule.Report.{Distinct, report_loop_iff}
use gametrace.CheckRule.{
  pos, seconds, outside, CheckRule, max_context, max_rules, max_title, max_message, cooldown_bad,
  context, when_empty, as_invalid, validate_condition, validate_check, check_rules_report,
}

module _ (g : Gjson) where
  open g use {Float}

  -- A rule that may be saved.
  pub record IsCheckRule (r : CheckRule Float) : Type 0 where
    pub identified : r.id ≢ ""
    pub named : r.name ≢ ""
    pub conditional :
        ((when_empty g r ≡ true) × (r.enabled ≡ false))
        ⊎ ((when_empty g r ≡ false) × IsValid g r.condition)
    pub cooled : cooldown_bad r.cooldown_sec ≡ false
    pub contextual : outside r.context_per_direction max_context ≡ false
    pub titled : length (codes r.title) ≤ max_title
    pub worded : length (codes r.message) ≤ max_message

  condition_sound :
      (r : CheckRule Float)
      → validate_condition g r ≡ []
      → ((when_empty g r ≡ true) × (r.enabled ≡ false))
        ⊎ ((when_empty g r ≡ false) × IsValid g r.condition)
  unfolding validate_condition
  condition_sound r h = elim (Bool-cases (when_empty g r)) [
    | inl y ↦ inl (y, when-eq-nil _ _ (sym (if_true _ _ y) ∙ h))
    | inr n ↦ inr (
      n,
      (validate-IsValid g r.condition).0 (map-eq-nil (as_invalid g) _ (sym (if_false _ _ n) ∙ h)),
    )
  ]

  condition_complete :
      (r : CheckRule Float)
      → ((when_empty g r ≡ true) × (r.enabled ≡ false))
        ⊎ ((when_empty g r ≡ false) × IsValid g r.condition)
      → validate_condition g r ≡ []
  unfolding validate_condition
  condition_complete r (inl (y, d)) = if_true _ _ y ∙ if_false _ _ d
  condition_complete r (inr (n, v)) =
      if_false _ _ n ∙ ap (map (as_invalid g)) ((validate-IsValid g r.condition).1 v)

  -- CheckRule.Validate reports nothing exactly for the rules with an id, a name, a valid condition (or
  -- none, where the rule is not enabled), a cooldown and a context in range and texts that are not too
  -- long.
  pub validate_check_iff : (r : CheckRule Float) → (validate_check g r ≡ []) ↔ IsCheckRule r
  unfolding validate_check
  validate_check_iff r = (sound, complete)
    where
      sound : validate_check g r ≡ [] → IsCheckRule r
      sound h =
          let (a, h1) = append-eq-nil (when (is_empty r.id) (issue check_id_required "id")) _ h in
          let (b, h2) =
            append-eq-nil (when (is_empty r.name) (issue check_name_required "name")) _ h1 in
          let (c, h3) = append-eq-nil (validate_condition g r) _ h2 in
          let (d, h4) =
            append-eq-nil
              (when (cooldown_bad r.cooldown_sec) (issue check_cooldown_range "cooldown_sec")) _
              h3 in
          let (e, h5) =
            append-eq-nil
              (when (outside r.context_per_direction max_context)
                (issue check_context_range "context_per_direction"))
              _ h4 in
          let (f, k) =
            append-eq-nil
              (when (ltb max_title (length (codes r.title))) (issue check_title_too_long "title")) _
              h5 in
          record {
            identified = λ q. ground (arith, when-eq-nil _ _ a);
            named = λ q. ground (arith, when-eq-nil _ _ b);
            conditional = condition_sound r c;
            cooled = when-eq-nil _ _ d;
            contextual = when-eq-nil _ _ e;
            titled = ground (arith, when-eq-nil _ _ f);
            worded = ground (arith, when-eq-nil _ _ k);
          }

      complete : IsCheckRule r → validate_check g r ≡ []
      complete w = ground (
        arith,
        w.identified,
        w.named,
        condition_complete r w.conditional,
        w.cooled,
        w.contextual,
        w.titled,
        w.worded,
      )

  -- RulesReport reports nothing exactly for at most fifty valid rules with different ids.
  pub check_rules_report_iff :
      (rules : List (CheckRule Float))
      → (check_rules_report g rules ≡ []) ↔ (
          (length rules ≤ max_rules)
          × (All (λ r. validate_check g r ≡ []) rules
              × Distinct "rules" check_id_duplicate (λ r. r.id) (validate_check g) rules))
  unfolding check_rules_report
  check_rules_report_iff rules =
      let loop =
        report_loop_iff "rules" check_id_duplicate (λ (r : CheckRule Float). r.id)
          (validate_check g) (λ r h. ((validate_check_iff r).0 h).identified) rules in
      (
        (λ h.
            let (few, rest) =
              append-eq-nil
                (when (ltb max_rules (length rules)) (issue check_too_many_rules "rules")) _ h in
            (ground (arith, when-eq-nil _ _ few), loop.0 rest)),
        (λ (few, rest). ground (arith, few, loop.1 rest)),
      )

  -- A valid rule asks for one to fifty events of context in each direction.
  pub context-bounds :
      (r : CheckRule Float)
      → validate_check g r ≡ []
      → (1 ≤ context g r) × (context g r ≤ max_context)
  unfolding context
  context-bounds r h =
      let c = ((validate_check_iff r).0 h).contextual in (ground (arith, c), ground (arith, c))

-- The range check of the cooldown is made after the multiplication that turns seconds into nanoseconds:
-- every multiple of 2 ^ 55 seconds wraps to 0 nanoseconds and passes the check.
pub cooldown_bad-wraps :
    (k : ℕ)
    → (cooldown_bad (pos (k * 36028797018963968)) ≡ false)
      × (seconds (k * 36028797018963968) ≡ pos 0)
cooldown_bad-wraps k =
    let zero_left : k * 36028797018963968 * 1000000000 % 18446744073709551616 ≡ 0 = omega arith in
    (ground (arith, zero_left), ground (arith, zero_left))

-- Up to the numbers of seconds that do not wrap, about 292 years, the check is the bound of a day.
pub cooldown_bad_iff : (n : ℕ) → n ≤ 9223372036 → (cooldown_bad (pos n) ≡ false) ↔ (n ≤ 86400)
cooldown_bad_iff n h = ground arith
