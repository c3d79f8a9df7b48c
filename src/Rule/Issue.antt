-- ===== src/Rule/Issue.antt =====
-- sdk/rule/issue.go, and the texts of positions in a declaration. Messages are left out; every issue
-- that the package makes has the severity "error".
use gametrace.Prelude.{
  ℕ, String, [], ◌∷◌, if◌then◌else◌, test, Bool, true, false, List, map, ◌≡◌, refl, ◌++◌,
}
use gametrace.Prelude.Text.{text_dec, concat, decimal}

pub data RuleId : Type 0 where
  rule_id_required rule_id_format rule_id_duplicate when_required effect_required : RuleId
  effect_unknown op_unknown op_required path_required value_required : RuleId
  value_array_required combinator_empty combinator_mixed evaluate_failed : RuleId
  pair_key_required pair_sides_limit : RuleId
  annotate_semantic_required annotate_semantic_unknown name_key_required : RuleId
  -- The constants of pkg/checkrule.
  check_id_required check_id_duplicate check_name_required check_when_required : RuleId
  check_when_invalid check_cooldown_range check_context_range check_title_too_long : RuleId
  check_message_too_long check_too_many_rules : RuleId

pub data Severity : Type 0 where
  error warn : Severity

pub record Issue : Type 0 where
  pub rule_id : RuleId
  pub path : String
  pub severity : Severity

abbrev pub issue : RuleId → String → Issue
issue id path = record { rule_id = id; path = path; severity = error }

-- The issue with its path put behind a prefix.
abbrev pub under : String → Issue → Issue
under prefix i = record i { path = concat (prefix ∷ i.path ∷ []) }

-- fmt.Sprintf("%s[%d].", kind, i)
unfoldable pub indexed : String → ℕ → String
indexed kind i = concat (kind ∷ "[" ∷ decimal i ∷ "]." ∷ [])

unfoldable pub join_path : String → String → String
join_path a b =
    if test (text_dec a "")
    then b
    else if test (text_dec b "")
    then a
    else concat (a ∷ "." ∷ b ∷ [])

abbrev pub when : Bool → Issue → List Issue
when b i = if b then i ∷ [] else []

abbrev pub is_empty : String → Bool
is_empty s = test (text_dec s "")

-- A list of issues is empty whatever is done to them.
pub map-eq-nil {ℓ κ} : {A : Type ℓ} {B : Type κ} (f : A → B) (xs : List A) → map f xs ≡ [] → xs ≡ []
map-eq-nil f [] e = refl
map-eq-nil f (x ∷ xs) e = cc

pub append-eq-nil {ℓ} : {A : Type ℓ} (xs ys : List A) → xs ++ ys ≡ [] → (xs ≡ []) × (ys ≡ [])
append-eq-nil [] ys e = (refl, e)
append-eq-nil (x ∷ xs) ys e = cc

pub when-eq-nil : (b : Bool) (i : Issue) → when b i ≡ [] → b ≡ false
when-eq-nil true i e = cc
when-eq-nil false i e = refl
