-- ===== src/SemanticHook/Defaults.antt =====
-- The default role of an event.
use gametrace.Prelude.{
  String, true, false, ◌≡◌, ◌≢◌, refl, sym, ◌∙◌, ap, subst, List, [], ◌∷◌, ◌++◌, some, All,
  All-append, Bool-cases, inl, inr,
}
use gametrace.Baseline.Value.{entry}
use gametrace.Baseline.Value.Value.{array}
use gametrace.SemanticHook.Pool.{fields_of}
use gametrace.SemanticHook.Labels.{
  Marked, set_meta, strings, apply_semantics, semantic_labels, has_role, role_of,
  apply_default_semantics,
}
use gametrace.SemanticHook.Linking.{entry-set_entry}
use gametrace.SemanticHook.Shapes.{
  Shows, ShowsRole, Implies, labels_of-Shows, Shows-strings, has_role-ShowsRole, has_no_role,
  role_of-Implies,
}
use gametrace.SemanticHook.Roles.{
  NotEmpty, labels_of-NotEmpty, semantic_labels_eq, semantic_labels-set_meta, entry-set_entry_other,
  has_role-snoc, role_of-IsRole,
}

-- As the code tells: an event has a role; one that had none has kept its labels and got the role of its direction behind
-- them, and one that had a role has not been changed. Other meta values are as they were.
pub record Defaulted (role : String) (old new : Marked) : Type 0 where
  pub role_there : has_role (semantic_labels new) ≡ true
  pub given :
      has_role (semantic_labels old) ≡ false
      → semantic_labels new ≡ semantic_labels old ++ role ∷ []
  pub left_alone : has_role (semantic_labels old) ≡ true → new ≡ old
  pub others :
      (k : String) → k ≢ "semantic" → entry k (fields_of new.meta) ≡ entry k (fields_of old.meta)

abbrev marked_with : String → Marked → Marked
marked_with r ev = set_meta "semantic" (array (strings (semantic_labels ev ++ r ∷ []))) ev

apply_semantics_snoc :
    (ls : List String) (r : String) (ev : Marked)
    → apply_semantics (ls ++ r ∷ []) ev ≡ set_meta "semantic" (array (strings (ls ++ r ∷ []))) ev
unfolding apply_semantics
apply_semantics_snoc [] r ev = refl
apply_semantics_snoc (l ∷ ls) r ev = refl

default_given :
    (ev : Marked) (r : String)
    → role_of ev.direction ≡ some r
    → has_role (semantic_labels ev) ≡ false
    → apply_default_semantics ev ≡ marked_with r ev
unfolding apply_default_semantics
default_given ev r e n =
    rw (apply_default_semantics, e, n) (apply_semantics_snoc (semantic_labels ev) r ev)

default_kept :
    (ev : Marked) (r : String)
    → role_of ev.direction ≡ some r
    → has_role (semantic_labels ev) ≡ true
    → apply_default_semantics ev ≡ ev
unfolding apply_default_semantics
default_kept ev r e y = rw (apply_default_semantics, e, y) refl

marked_with-Defaulted :
    (ev : Marked) (r : String)
    → role_of ev.direction ≡ some r
    → has_role (semantic_labels ev) ≡ false
    → Defaulted r ev (marked_with r ev)
unfolding set_meta
marked_with-Defaulted ev r e n =
    let (role, full) = role_of-IsRole ev.direction r e in
    let ls = semantic_labels ev in
    let kept : All NotEmpty ls =
      subst (All NotEmpty) (sym (semantic_labels_eq ev))
        (labels_of-NotEmpty (entry "semantic" (fields_of ev.meta))) in
    let read =
      semantic_labels-set_meta (ls ++ r ∷ []) ev
        (All-append NotEmpty ls (r ∷ []) kept (full, tt)) in
    record {
      role_there = ap has_role read ∙ has_role-snoc ls r role;
      given = λ h. read;
      left_alone = λ h. absurd (cc);
      others = λ k d.
          entry-set_entry_other "semantic" k (array (strings (ls ++ r ∷ []))) (fields_of ev.meta) d;
    }

default_Defaulted :
    (ev : Marked) (r : String)
    → role_of ev.direction ≡ some r
    → let out = apply_default_semantics ev in
      Defaulted r ev out × (apply_default_semantics out ≡ out)
unfolding set_meta
default_Defaulted ev r e = elim (Bool-cases (has_role (semantic_labels ev))) [
  | inl y ↦
      let same = default_kept ev r e y in
      subst (λ (out : Marked). Defaulted r ev out × (apply_default_semantics out ≡ out)) (sym same)
        (
          record {
            role_there = y;
            given = λ n. absurd (cc);
            left_alone = λ h. refl;
            others = λ k d. refl;
          },
          same,
        )
  | inr n ↦
      let there = marked_with-Defaulted ev r e n in
      subst (λ (out : Marked). Defaulted r ev out × (apply_default_semantics out ≡ out))
        (sym (default_given ev r e n)) (there, default_kept (marked_with r ev) r e there.role_there)
]

labels_shown :
    (ev : Marked) (ls : List String)
    → Shows (entry "semantic" (fields_of ev.meta)) ls
    → semantic_labels ev ≡ ls
labels_shown ev ls h =
    semantic_labels_eq ev ∙ labels_of-Shows (entry "semantic" (fields_of ev.meta)) ls h

shown_marked :
    (ev : Marked) (r : String)
    → role_of ev.direction ≡ some r
    → Shows (entry "semantic" (fields_of (marked_with r ev).meta)) (semantic_labels ev ++ r ∷ [])
unfolding set_meta
shown_marked ev r e =
    let ls = semantic_labels ev in
    let (role, full) = role_of-IsRole ev.direction r e in
    let kept : All NotEmpty ls =
      subst (All NotEmpty) (sym (semantic_labels_eq ev))
        (labels_of-NotEmpty (entry "semantic" (fields_of ev.meta))) in
    subst (λ o. Shows o (ls ++ r ∷ []))
      (sym (entry-set_entry "semantic" (array (strings (ls ++ r ∷ []))) (fields_of ev.meta)))
      (Shows-strings (ls ++ r ∷ []) (All-append NotEmpty ls (r ∷ []) kept (full, tt)))

-- What applyDefaultSemantics makes of an event that shows labels: with a role among them it is as it was,
-- and with none it shows the same labels with the new role behind them; its other meta values are as they
-- were, and a second run changes nothing.
pub record HasRole (r : String) (ls : List String) (old new : Marked) : Type 0 where
  pub left_alone : ShowsRole ls → new ≡ old
  pub given : (ShowsRole ls → ⊥) → Shows (entry "semantic" (fields_of new.meta)) (ls ++ r ∷ [])
  pub others :
      (k : String) → k ≢ "semantic" → entry k (fields_of new.meta) ≡ entry k (fields_of old.meta)
  pub once : apply_default_semantics new ≡ new

-- An event of a client's message gets the role "request" and one of a server's message "response", behind
-- the labels that it shows, as an array or as a single text, unless one of these is "request", "response"
-- or "notification": then nothing changes. No other meta value changes, and a second run changes nothing.
pub apply_default_semantics-HasRole :
    (ev : Marked) (r : String) (ls : List String)
    → Implies ev.direction r
    → Shows (entry "semantic" (fields_of ev.meta)) ls
    → HasRole r ls ev (apply_default_semantics ev)
apply_default_semantics-HasRole ev r ls d h =
    let e = role_of-Implies ev.direction r d in
    let same = labels_shown ev ls h in
    let (as_code, once) = default_Defaulted ev r e in
    record {
      left_alone = λ y. as_code.left_alone (ap has_role same ∙ has_role-ShowsRole ls y);
      given = λ n.
          let none_there = ap has_role same ∙ has_no_role ls n in
          subst (λ (out : Marked). Shows (entry "semantic" (fields_of out.meta)) (ls ++ r ∷ []))
            (sym (default_given ev r e none_there))
            (subst (λ l. Shows (entry "semantic" (fields_of (marked_with r ev).meta)) (l ++ r ∷ []))
              same (shown_marked ev r e));
      others = as_code.others;
      once = once;
    }
