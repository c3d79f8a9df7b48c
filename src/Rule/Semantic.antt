-- ===== src/Rule/Semantic.antt =====
-- Rule, Effect and PairSide of sdk/rule/rule.go, and the validation of a plugin's rule list.
use gametrace.Prelude.{
  ℕ, zero, suc, String, Bool, true, false, not, ◌&&◌, ◌||◌, List, [], ◌∷◌, ◌++◌, Option, none, some,
  map, length, leb, ◌==◌, if◌then◌else◌,
}
use gametrace.Prelude.Text.{codes}
use gametrace.Rule.Json.{Gjson}
use gametrace.Rule.Issue.{
  Issue, issue, under, indexed, when, is_empty, rule_id_required, rule_id_format, rule_id_duplicate,
  when_required, effect_required, effect_unknown, pair_sides_limit, pair_key_required,
  annotate_semantic_required, annotate_semantic_unknown, name_key_required,
}
use gametrace.Rule.Predicate.{Predicate}
use gametrace.Rule.Validity.{validate}
use gametrace.Rule.Report.{report_loop}

-- Semantic and EffectType are strings: `unset` is the empty one, `unknown` one outside the closed set.
pub data Semantic : Type 0 where
  request response notification error unset : Semantic
  unknown : String → Semantic

pub data EffectType : Type 0 where
  pair annotate name unset : EffectType
  unknown : String → EffectType

pub record PairSide (F : Type 0) : Type 0 where
  pub predicate : Predicate F
  pub key : String

pub record Effect (F : Type 0) : Type 0 where
  pub type : EffectType
  pub key : String
  pub sides : List (PairSide F)
  pub semantic : Semantic

pub record Rule (F : Type 0) : Type 0 where
  pub id : String
  pub condition : Option (Predicate F)
  pub effect : Effect F

abbrev pub sem_closed : Semantic → Bool
sem_closed unset = false
sem_closed (unknown s) = false
sem_closed _ = true

-- The pattern ^[a-z][a-z0-9_]*(\.[a-z][a-z0-9_]*)*$ on code points, at the start of a segment or in one.
abbrev pub is_lower : ℕ → Bool
is_lower c = leb b'a' c && leb c b'z'

abbrev pub is_segment_char : ℕ → Bool
is_segment_char c = is_lower c || (leb b'0' c && leb c b'9') || c == b'_'

abbrev pub in_segment : Bool → List ℕ → Bool
in_segment start [] = not start
in_segment true (c ∷ cs) = let rest = in_segment false cs in is_lower c && rest
in_segment false (c ∷ cs) =
    let rest = in_segment (c == b'.') cs in (is_segment_char c || c == b'.') && rest

unfoldable pub id_matches : String → Bool
id_matches s = in_segment true (codes s)

module _ (g : Gjson) where
  open g use {Float}

  -- The loop of validatePair over the sides.
  unfoldable pub validate_sides : ℕ → List (PairSide Float) → List Issue
  validate_sides i [] = []
  validate_sides i (s ∷ ss) =
      when (is_empty s.key) (issue pair_key_required (indexed "effect.sides" i))
      ++ (map (under (indexed "effect.sides" i)) (validate g s.predicate)
          ++ validate_sides (suc i) ss)

  unfoldable pub validate_pair : Effect Float → List Issue
  validate_pair e =
      when (not (length e.sides == 2)) (issue pair_sides_limit "effect.sides")
      ++ validate_sides zero e.sides

  unfoldable pub validate_annotate : Semantic → List Issue
  validate_annotate unset = issue annotate_semantic_required "effect" ∷ []
  validate_annotate s =
      when (not (sem_closed s)) (issue annotate_semantic_unknown "effect.semantic")

  unfoldable pub validate_name : Effect Float → List Issue
  validate_name e = when (is_empty e.key) (issue name_key_required "effect")

  unfoldable pub validate_effect : EffectType → Effect Float → List Issue
  validate_effect pair e = validate_pair e
  validate_effect annotate e = validate_annotate e.semantic
  validate_effect name e = validate_name e
  validate_effect unset e = issue effect_required "" ∷ []
  validate_effect (unknown t) e = issue effect_unknown "" ∷ []

  unfoldable pub validate_id : String → List Issue
  validate_id id =
      if is_empty id
      then issue rule_id_required "" ∷ []
      else when (not (id_matches id)) (issue rule_id_format "")

  unfoldable pub validate_when : Option (Predicate Float) → List Issue
  validate_when none = issue when_required "" ∷ []
  validate_when (some p) = map (under "when.") (validate g p)

  -- Rule.Validate
  unfoldable pub validate_rule : Rule Float → List Issue
  validate_rule r =
      validate_id r.id ++ (validate_when r.condition ++ validate_effect r.effect.type r.effect)

  -- RulesReport
  unfoldable pub rules_report : List (Rule Float) → List Issue
  rules_report rules =
      report_loop "semantic_rules" rule_id_duplicate (λ r. r.id) validate_rule [] zero rules
