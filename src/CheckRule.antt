-- ===== src/CheckRule.antt =====
-- pkg/checkrule/checkrule.go: the check rules of a project. `Report` has what the checks of a rule list
-- establish, `Engine` is cmd/gt-pipeline/check_hook.go, which runs the rules over a session's events.
-- `Window` and `Context` are about its windows, `Alerts` and `Notified` about the jobs that its worker is
-- given, and `Cooldown` about the time between them.
use gametrace.Prelude.{
  ℕ, zero, suc, String, Bool, true, false, not, ◌&&◌, ◌||◌, List, [], ◌∷◌, ◌++◌, Option, none, some,
  map, length, leb, ltb, ◌*◌, ◌-◌, ◌%◌, ◌^◌, if◌then◌else◌, select,
}
use gametrace.Prelude.Text.{codes, concat}
use gametrace.Rule.Json.{Any, Gjson}
use gametrace.Rule.Issue.{
  Issue, RuleId, Severity, error, warn, issue, under, when, is_empty, check_id_required,
  check_id_duplicate, check_name_required, check_when_required, check_when_invalid,
  check_cooldown_range, check_context_range, check_title_too_long, check_message_too_long,
  check_too_many_rules,
}
use gametrace.Rule.Predicate.{Predicate, node, nil, cons, evaluate}
use gametrace.Rule.Validity.{validate as validate_predicate, is_unset, is_null, no_leaf}
use gametrace.Rule.Report.{report_loop}
pub mod Report
pub mod Engine
pub mod Window
pub mod Context
pub mod Alerts
pub mod Notified
pub mod Cooldown
pub mod Tests

-- Go's signed 64-bit integers, int and time.Duration, as integers in their range.
pub data ℤ : Type 0 where
  pos : ℕ → ℤ
  negsuc : ℕ → ℤ

abbrev pub signed : ℕ → ℤ
signed m = if ltb m 9223372036854775808 then pos m else negsuc (18446744073709551615 - m)

-- time.Duration(n) * time.Second for n of at least 0, in nanoseconds, with its wrap-around.
abbrev pub seconds : ℕ → ℤ
seconds n = signed (n * 1000000000 % 18446744073709551616)

abbrev pub above : ℤ → ℕ → Bool
above (pos n) m = ltb m n
above (negsuc n) m = false

-- Outside [0, m].
abbrev pub outside : ℤ → ℕ → Bool
outside (pos n) m = ltb m n
outside (negsuc n) m = true

pub record CheckRule (F : Type 0) : Type 0 where
  pub id : String
  pub name : String
  pub enabled : Bool
  pub condition : Predicate F
  pub title : String
  pub message : String
  pub cooldown_sec : ℤ
  pub context_per_direction : ℤ

abbrev pub default_cooldown : ℤ
default_cooldown = pos 30000000000

abbrev pub max_cooldown : ℕ
max_cooldown = 86400000000000

abbrev pub default_context : ℕ
default_context = 3

abbrev pub max_context : ℕ
max_context = 50

abbrev pub max_rules : ℕ
max_rules = 50

abbrev pub max_title : ℕ
max_title = 200

abbrev pub max_message : ℕ
max_message = 500

abbrev pub cooldown_of : ℤ → ℤ
cooldown_of (pos zero) = default_cooldown
cooldown_of (pos (suc n)) = seconds (suc n)
cooldown_of (negsuc n) = default_cooldown

abbrev pub context_of : ℤ → ℕ
context_of (pos zero) = default_context
context_of (pos (suc n)) = suc n
context_of (negsuc n) = default_context

-- `time.Duration(r.CooldownSec)*time.Second > MaxCooldown`, or a negative number.
abbrev pub cooldown_bad : ℤ → Bool
cooldown_bad (pos n) = above (seconds n) max_cooldown
cooldown_bad (negsuc n) = true

-- HasError
unfoldable pub has_error : List Issue → Bool
has_error [] = false
has_error (i ∷ is) = let rest = has_error is in elim i.severity [ error ↦ true | warn ↦ rest ]

module _ (g : Gjson) where
  open g use {Float}

  unfoldable pub cooldown : CheckRule Float → ℤ
  cooldown r = cooldown_of r.cooldown_sec

  unfoldable pub context : CheckRule Float → ℕ
  context r = context_of r.context_per_direction

  unfoldable pub notify_title : CheckRule Float → String
  notify_title r =
      if not (is_empty r.title) then r.title else if not (is_empty r.name) then r.name else "检查规则命中"

  abbrev pub empty_predicate : Predicate Float → Bool
  empty_predicate (node nil nil path op v) = no_leaf path op v
  empty_predicate (node _ _ path op v) = false

  -- whenEmpty
  abbrev pub when_empty : CheckRule Float → Bool
  when_empty r = empty_predicate r.condition

  abbrev pub as_invalid : Issue → Issue
  as_invalid i = record (under "when." i) { rule_id = check_when_invalid }

  unfoldable pub validate_condition : CheckRule Float → List Issue
  validate_condition r =
      if when_empty r
      then when r.enabled (issue check_when_required "when")
      else map as_invalid (validate_predicate g r.condition)

  -- CheckRule.Validate
  unfoldable pub validate_check : CheckRule Float → List Issue
  validate_check r =
      when (is_empty r.id) (issue check_id_required "id")
      ++ (when (is_empty r.name) (issue check_name_required "name")
          ++ (validate_condition r
              ++ (when (cooldown_bad r.cooldown_sec) (issue check_cooldown_range "cooldown_sec")
                  ++ (when (outside r.context_per_direction max_context)
                        (issue check_context_range "context_per_direction")
                      ++ (when (ltb max_title (length (codes r.title)))
                            (issue check_title_too_long "title")
                          ++ when (ltb max_message (length (codes r.message)))
                              (issue check_message_too_long "message"))))))

  -- RulesReport
  unfoldable pub check_rules_report : List (CheckRule Float) → List Issue
  check_rules_report rules =
      when (ltb max_rules (length rules)) (issue check_too_many_rules "rules")
      ++ report_loop "rules" check_id_duplicate (λ r. r.id) validate_check [] zero rules

  abbrev pub is_active : CheckRule Float → Bool
  is_active r = r.enabled && not (when_empty r)

  -- Active
  unfoldable pub active : List (CheckRule Float) → List (CheckRule Float)
  active rules = select is_active rules

  -- Match, on the document that the event's bytes parse to; `none` stands for no bytes.
  unfoldable pub match_event : Predicate Float → Option g.Result → Bool
  match_event p none = false
  match_event p (some doc) = evaluate g p doc
