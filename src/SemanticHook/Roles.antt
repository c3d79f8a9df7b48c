-- ===== src/SemanticHook/Roles.antt =====
-- The role that every event with a direction ends with.
use gametrace.Prelude.{
  String, true, false, ◌≡◌, ◌≢◌, refl, sym, ◌∙◌, ap, subst, List, [], ◌∷◌, ◌++◌, Option, none, some,
  test, All, arith, Bool-cases, inl, inr, ◌⊎◌,
}
use gametrace.Prelude.Text.{text_dec}
use gametrace.Baseline.Value.{Value, Values, Fields, as_string, entry, set_entry}
use gametrace.Baseline.Value.Value.{string, array, object, null, bool, int, uint, float, bytes}
use gametrace.Baseline.Value.Values.{nil, cons}
use gametrace.Baseline.Value.Fields.{end, field}
use gametrace.SemanticHook.Pool.{fields_of}
use gametrace.SemanticHook.Linking.{entry-set_entry}
use gametrace.SemanticHook.Labels.{
  Marked, set_meta, strings, add_text, texts, labels_in, semantic_labels, is_role, has_role,
  role_of,
}

abbrev pub NotEmpty : String → Type 0
NotEmpty s = test (text_dec s "") ≡ false

texts-strings : (ls : List String) → All NotEmpty ls → texts (strings ls) ≡ ls
unfolding texts add_text strings as_string
texts-strings [] a = refl
texts-strings (l ∷ ls) a = rw (a.0) (ap (◌∷◌ l) (texts-strings ls a.1))

add_text-NotEmpty :
    (s : Option String) (rest : List String) → All NotEmpty rest → All NotEmpty (add_text s rest)
unfolding add_text
add_text-NotEmpty none rest a = a
add_text-NotEmpty (some s) rest a = elim (Bool-cases (test (text_dec s ""))) [
  | inl y ↦ rw y a
  | inr n ↦ rw n (n, a)
]

texts-NotEmpty : (vs : Values) → All NotEmpty (texts vs)
unfolding texts
texts-NotEmpty nil = tt
texts-NotEmpty (cons v vs) = add_text-NotEmpty (as_string v) (texts vs) (texts-NotEmpty vs)

labels_in-NotEmpty : (v : Value) → All NotEmpty (labels_in v)
unfolding labels_in add_text
labels_in-NotEmpty (array vs) = texts-NotEmpty vs
labels_in-NotEmpty (string s) = add_text-NotEmpty (some s) [] tt
labels_in-NotEmpty null = tt
labels_in-NotEmpty (bool b) = tt
labels_in-NotEmpty (int i) = tt
labels_in-NotEmpty (uint u) = tt
labels_in-NotEmpty (float f) = tt
labels_in-NotEmpty (bytes b) = tt
labels_in-NotEmpty (object fs) = tt

unfoldable pub labels_of : Option Value → List String
labels_of none = []
labels_of (some v) = labels_in v

pub labels_of-NotEmpty : (v : Option Value) → All NotEmpty (labels_of v)
unfolding labels_of
labels_of-NotEmpty none = tt
labels_of-NotEmpty (some v) = labels_in-NotEmpty v

pub semantic_labels_eq :
    (ev : Marked) → semantic_labels ev ≡ labels_of (entry "semantic" (fields_of ev.meta))
unfolding semantic_labels labels_of
semantic_labels_eq ev = ground arith

-- Labels that are written are read again.
pub semantic_labels-set_meta :
    (ls : List String) (ev : Marked)
    → All NotEmpty ls
    → semantic_labels (set_meta "semantic" (array (strings ls)) ev) ≡ ls
unfolding set_meta labels_of labels_in
semantic_labels-set_meta ls ev a =
    semantic_labels_eq _
    ∙ (ap labels_of (entry-set_entry "semantic" (array (strings ls)) (fields_of ev.meta))
        ∙ texts-strings ls a)

pub entry-set_entry_other :
    (k j : String) (v : Value) (fs : Fields) → j ≢ k → entry j (set_entry k v fs) ≡ entry j fs
unfolding entry set_entry
entry-set_entry_other k j v end n = ground arith
entry-set_entry_other k j v (field i w fs) n = ground (arith, entry-set_entry_other k j v fs n)

pub has_role-snoc :
    (ls : List String) (l : String) → is_role l ≡ true → has_role (ls ++ l ∷ []) ≡ true
unfolding has_role
has_role-snoc [] l e = ground arith
has_role-snoc (x ∷ xs) l e = ground (arith, has_role-snoc xs l e)

role_of_cases :
    (direction r : String) → role_of direction ≡ some r → (r ≡ "request") ⊎ (r ≡ "response")
unfolding role_of
role_of_cases direction r e = ground arith

pub role_of-IsRole :
    (direction r : String) → role_of direction ≡ some r → (is_role r ≡ true) × NotEmpty r
unfolding text_dec
role_of-IsRole direction r e = elim (role_of_cases direction r e) [
  | inl q ↦ subst (λ x. (is_role x ≡ true) × NotEmpty x) (sym q) (refl, refl)
  | inr q ↦ subst (λ x. (is_role x ≡ true) × NotEmpty x) (sym q) (refl, refl)
]
