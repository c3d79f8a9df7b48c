-- ===== src/Rule/Report.antt =====
-- The loop that RulesReport of sdk/rule/rule.go and of pkg/checkrule/checkrule.go share: it reports the
-- ids that were seen before, and the issues of each rule under its index.
use gametrace.Prelude.{
  ℕ, zero, suc, String, Bool, true, false, not, ◌&&◌, ◌≡◌, ◌≢◌, ◌↔◌, refl, List, [], ◌∷◌, ◌++◌,
  none, some, arith, map, All, if◌then◌else◌,
}
use gametrace.Prelude.Map.{Map, lookup, insert, lookup-insert}
use gametrace.Prelude.Text.{text_dec, concat, decimal}
use gametrace.Rule.Issue.{
  Issue, RuleId, issue, when, is_empty, join_path, map-eq-nil, append-eq-nil, when-eq-nil,
}

-- `seen[id]` of a map[string]bool.
abbrev pub is_seen : Map String Bool → String → Bool
is_seen seen id = elim (lookup text_dec id seen) [ none ↦ false | some b ↦ b ]

abbrev pub mark : String → Map String Bool → Map String Bool
mark id seen = if is_empty id then seen else insert text_dec id true seen

-- The issue with its path joined behind a prefix.
abbrev pub behind : String → Issue → Issue
behind prefix i = record i { path = join_path prefix i.path }

module _ {R : Type 0} (list_name : String) (duplicate : RuleId) (id_of : R → String)
    (validate : R → List Issue) where
  -- fmt.Sprintf("%s[%d]", list_name, i)
  abbrev pub at_index : ℕ → String
  at_index i = concat (list_name ∷ "[" ∷ decimal i ∷ "]" ∷ [])

  unfoldable pub report_loop : Map String Bool → ℕ → List R → List Issue
  report_loop seen i [] = []
  report_loop seen i (r ∷ rs) =
      when (not (is_empty (id_of r)) && is_seen seen (id_of r)) (issue duplicate (at_index i))
      ++ (map (behind (at_index i)) (validate r) ++ report_loop (mark (id_of r) seen) (suc i) rs)

  -- No two rules have the same id.
  abbrev pub Distinct : List R → Type 0
  Distinct [] = Unit {0}
  Distinct (r ∷ rs) = All (λ q. id_of q ≢ id_of r) rs × Distinct rs

  -- Every rule is valid by itself, and every valid rule has an id.
  module _ (named : (r : R) → validate r ≡ [] → id_of r ≢ "") where
    abbrev Fresh : Map String Bool → R → Type 0
    Fresh seen r = is_seen seen (id_of r) ≡ false

    All-unmark :
        (id : String) (seen : Map String Bool) (rs : List R)
        → id ≢ ""
        → All (Fresh (mark id seen)) rs
        → All (Fresh seen) rs × All (λ r. id_of r ≢ id) rs
    All-unmark id seen [] n f = (tt, tt)
    All-unmark id seen (r ∷ rs) n f =
        let (fresh, other) = All-unmark id seen rs n f.1 in
        (
          (ground (arith, lookup-insert text_dec id (id_of r) true seen), fresh),
          (λ e. ground (arith, lookup-insert text_dec id (id_of r) true seen), other),
        )

    All-mark :
        (id : String) (seen : Map String Bool) (rs : List R)
        → All (Fresh seen) rs
        → All (λ r. id_of r ≢ id) rs
        → All (Fresh (mark id seen)) rs
    All-mark id seen [] f o = tt
    All-mark id seen (r ∷ rs) f o =
        (ground (arith, lookup-insert text_dec id (id_of r) true seen), All-mark id seen rs f.1 o.1)

    report_loop_sound :
        (seen : Map String Bool) (i : ℕ) (rs : List R)
        → report_loop seen i rs ≡ []
        → All (λ r. validate r ≡ []) rs × All (Fresh seen) rs × Distinct rs
    unfolding report_loop
    report_loop_sound seen i [] h = (tt, tt, tt)
    report_loop_sound seen i (r ∷ rs) h =
        let (first, rest) =
          append-eq-nil
            (when (not (is_empty (id_of r)) && is_seen seen (id_of r))
              (issue duplicate (at_index i)))
            _ h in
        let (own, later) = append-eq-nil (map (behind (at_index i)) (validate r)) _ rest in
        let valid : validate r ≡ [] = map-eq-nil (behind (at_index i)) (validate r) own in
        let (valids, marked, distinct) = report_loop_sound (mark (id_of r) seen) (suc i) rs later in
        let (fresh, others) = All-unmark (id_of r) seen rs (named r valid) marked in
        (
          (valid, valids),
          (ground (arith, named r valid, when-eq-nil _ _ first), fresh),
          (others, distinct),
        )

    report_loop_complete :
        (seen : Map String Bool) (i : ℕ) (rs : List R)
        → All (λ r. validate r ≡ []) rs
        → All (Fresh seen) rs
        → Distinct rs
        → report_loop seen i rs ≡ []
    unfolding report_loop
    report_loop_complete seen i [] v f d = refl
    report_loop_complete seen i (r ∷ rs) v f d = ground (
      arith,
      report_loop_complete (mark (id_of r) seen) (suc i) rs v.1 (All-mark (id_of r) seen rs f.1 d.0)
          d.1,
    )

    All-unseen : (rs : List R) → All (Fresh []) rs
    unfolding lookup
    All-unseen [] = tt
    All-unseen (r ∷ rs) = (refl, All-unseen rs)

    -- The loop reports nothing exactly when each rule is valid and no id occurs twice.
    pub report_loop_iff :
        (rs : List R)
        → (report_loop [] zero rs ≡ []) ↔ (All (λ r. validate r ≡ []) rs × Distinct rs)
    report_loop_iff rs = (
      (λ h. let (v, f, d) = report_loop_sound [] zero rs h in (v, d)),
      (λ h. report_loop_complete [] zero rs h.0 (All-unseen rs) h.1),
    )
