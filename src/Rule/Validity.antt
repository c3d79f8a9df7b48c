-- ===== src/Rule/Validity.antt =====
-- Predicate.validate of sdk/rule/predicate.go, and the declarations that it accepts.
use gametrace.Prelude.{
  ℕ, zero, suc, String, Bool, true, false, not, ◌&&◌, ◌≡◌, ◌≢◌, ◌↔◌, refl, List, [], ◌∷◌, ◌++◌,
  arith, map, if◌then◌else◌, ◌⊎◌, inl, inr, Bool-cases, if_true, ap₂, ◌∙◌,
}
use gametrace.Rule.Json.{Any, Gjson, null}
use gametrace.Rule.Issue.{
  Issue, issue, under, indexed, map-eq-nil, append-eq-nil, when, is_empty, combinator_mixed,
  op_required, op_unknown, path_required, value_required, value_array_required,
}
use gametrace.Rule.Predicate.{
  Op, exists, not_exists, is_in, not_in, unset, unknown, Predicate, Predicates, node, nil, cons,
  literal,
}

-- opClosed
abbrev pub op_closed : Op → Bool
op_closed unset = false
op_closed (unknown s) = false
op_closed _ = true

-- needsValue
abbrev pub needs_value : Op → Bool
needs_value exists = false
needs_value not_exists = false
needs_value unset = false
needs_value (unknown s) = false
needs_value _ = true

-- needsArrayValue
abbrev pub needs_array_value : Op → Bool
needs_array_value is_in = true
needs_array_value not_in = true
needs_array_value _ = false

abbrev pub is_unset : Op → Bool
is_unset unset = true
is_unset _ = false

abbrev pub is_null : {F : Type 0} → Any F → Bool
is_null null = true
is_null _ = false

-- `hasLeaf` is false.
abbrev pub no_leaf : {F : Type 0} → String → Op → Any F → Bool
no_leaf path op v = is_empty path && is_unset op && is_null v

module _ (g : Gjson) where
  open g use {Float, is_array}

  -- The part of validate for a leaf.
  unfoldable pub validate_leaf : String → Op → Any Float → List Issue
  validate_leaf path op v =
      if is_unset op
      then issue op_required "op" ∷ []
      else if not (op_closed op)
      then issue op_unknown "op" ∷ []
      else when (is_empty path) (issue path_required "path")
        ++ when (needs_value op && is_null v) (issue value_required "value")
        ++ when (not (is_null v) && needs_array_value op && not (is_array (literal g v)))
            (issue value_array_required "value")

  unfoldable mutual
    pub validate : Predicate Float → List Issue
    validate (node nil nil path op v) = validate_leaf path op v
    validate (node (cons p ps) nil path op v) =
        let inner = validate_list "all" zero (cons p ps) in
        if no_leaf path op v then inner else issue combinator_mixed "" ∷ []
    validate (node nil (cons q qs) path op v) =
        let inner = validate_list "any" zero (cons q qs) in
        if no_leaf path op v then inner else issue combinator_mixed "" ∷ []
    validate (node (cons p ps) (cons q qs) path op v) = issue combinator_mixed "" ∷ []

    pub validate_list : String → ℕ → Predicates Float → List Issue
    validate_list kind i nil = []
    validate_list kind i (cons p ps) =
        map (under (indexed kind i)) (validate p) ++ validate_list kind (suc i) ps

  -- A leaf that may be declared.
  pub record IsLeaf (path : String) (op : Op) (v : Any Float) : Type 0 where
    pub closed : op_closed op ≡ true
    pub located : path ≢ ""
    pub valued : (needs_value op ≡ false) ⊎ (is_null v ≡ false)
    pub arrayed :
        (needs_array_value op ≡ false) ⊎ ((is_null v ≡ true) ⊎ (is_array (literal g v) ≡ true))

  -- The predicates that may be declared: leaves, and non-empty combinators with nothing beside them.
  mutual
    pub data IsValid : Predicate Float → Type 0 where
      leaf :
          {path : String} {op : Op} {v : Any Float}
          → IsLeaf path op v
          → IsValid (node nil nil path op v)
      conjunction :
          {p : Predicate Float} {ps : Predicates Float} {path : String} {op : Op} {v : Any Float}
          → no_leaf path op v ≡ true
          → AreValid (cons p ps)
          → IsValid (node (cons p ps) nil path op v)
      disjunction :
          {p : Predicate Float} {ps : Predicates Float} {path : String} {op : Op} {v : Any Float}
          → no_leaf path op v ≡ true
          → AreValid (cons p ps)
          → IsValid (node nil (cons p ps) path op v)

    pub data AreValid : Predicates Float → Type 0 where
      none_left : AreValid nil
      one_more :
          {p : Predicate Float} {ps : Predicates Float}
          → IsValid p
          → AreValid ps
          → AreValid (cons p ps)

  validate_leaf_sound :
      (path : String) (op : Op) (v : Any Float) → validate_leaf path op v ≡ [] → IsLeaf path op v
  unfolding validate_leaf
  validate_leaf_sound path op v h = record {
    closed = ground arith;
    located = λ e. ground arith;
    valued = elim (Bool-cases (needs_value op)) [ inl n ↦ inr (ground arith) | inr n ↦ inl n ];
    arrayed = elim (Bool-cases (needs_array_value op)) [
      | inl n ↦ inr (elim (Bool-cases (is_null v)) [ inl u ↦ inl u | inr u ↦ inr (ground arith) ])
      | inr n ↦ inl n
    ];
  }

  validate_leaf_complete :
      (path : String) (op : Op) (v : Any Float) → IsLeaf path op v → validate_leaf path op v ≡ []
  unfolding validate_leaf
  validate_leaf_complete path op v l = ground arith

  if-clear :
      {A : Type 0} (b : Bool) (x : A) (xs : List A)
      → (if b then xs else x ∷ []) ≡ []
      → (b ≡ true) × (xs ≡ [])
  if-clear true x xs e = (refl, e)
  if-clear false x xs e = cc

  mutual
    unfolding validate validate_list

    sound : (p : Predicate Float) → validate p ≡ [] → IsValid p
    sound (node nil nil path op v) h = leaf (validate_leaf_sound path op v h)
    sound (node (cons p ps) nil path op v) h =
        let (alone, clear) =
          if-clear (no_leaf path op v) (issue combinator_mixed "")
            (validate_list "all" zero (cons p ps)) h in
        conjunction alone (sound_list "all" zero (cons p ps) clear)
    sound (node nil (cons q qs) path op v) h =
        let (alone, clear) =
          if-clear (no_leaf path op v) (issue combinator_mixed "")
            (validate_list "any" zero (cons q qs)) h in
        disjunction alone (sound_list "any" zero (cons q qs) clear)
    sound (node (cons p ps) (cons q qs) path op v) h = cc

    sound_list :
        (kind : String) (i : ℕ) (ps : Predicates Float) → validate_list kind i ps ≡ [] → AreValid ps
    sound_list kind i nil h = none_left
    sound_list kind i (cons p ps) h =
        let (hp, hps) =
          append-eq-nil (map (under (indexed kind i)) (validate p)) (validate_list kind (suc i) ps)
            h in
        one_more (sound p (map-eq-nil (under (indexed kind i)) (validate p) hp))
          (sound_list kind (suc i) ps hps)

  mutual
    unfolding validate validate_list

    complete : (p : Predicate Float) → IsValid p → validate p ≡ []
    complete (node nil nil path op v) (leaf l) = validate_leaf_complete path op v l
    complete (node (cons p ps) nil path op v) (conjunction a w) =
        if_true _ _ a ∙ complete_list "all" zero (cons p ps) w
    complete (node nil (cons q qs) path op v) (disjunction a w) =
        if_true _ _ a ∙ complete_list "any" zero (cons q qs) w
    complete (node (cons p ps) (cons q qs) path op v) w = elim w [ ]

    complete_list :
        (kind : String) (i : ℕ) (ps : Predicates Float) → AreValid ps → validate_list kind i ps ≡ []
    complete_list kind i nil w = refl
    complete_list kind i (cons p ps) (one_more w ws) =
        ap₂ (λ xs ys. map (under (indexed kind i)) xs ++ ys) (complete p w)
          (complete_list kind (suc i) ps ws)

  -- Predicate.validate reports nothing exactly for the leaves with a known op, a path and the value that
  -- the op needs, and for non-empty combinators, all or any but not both, of such predicates.
  pub validate-IsValid : (p : Predicate Float) → (validate p ≡ []) ↔ IsValid p
  validate-IsValid p = (sound p, complete p)
