-- ===== src/SemanticHook/Labels.antt =====
-- What cmd/gt-pipeline/semantic_hook.go writes to an event's meta values: applyMsgNames, applySemantics,
-- applyDefaultSemantics, semanticLabels and withMetaObject. A semantic label is its text. A map is not nil.
use gametrace.Prelude.{
  String, Bool, false, ◌||◌, List, [], ◌∷◌, ◌++◌, Option, none, some, test, if◌then◌else◌, is_nil,
}
use gametrace.Prelude.Text.{text_dec}
use gametrace.Baseline.Value.{Value, Values, Fields, as_string, entry, set_entry}
use gametrace.Baseline.Value.Value.{string, array, object}
use gametrace.Baseline.Value.Values.{nil, cons}
use gametrace.Baseline.Value.Fields.{end}
use gametrace.Rule.Evaluation.{NameHit}
use gametrace.SemanticHook.Pool.{fields_of}

pub record Marked : Type 0 where
  pub direction : String
  pub meta : Value
  pub payload : Value

unfoldable pub in_meta : String → Value → Fields → Value → Value
in_meta k v root (object fs) = object (set_entry "_meta" (object (set_entry k v fs)) root)
in_meta k v root cur = object root

-- The payload of an older plugin has a _meta of its own, which is written too.
unfoldable pub written_through : String → Value → Value → Value
written_through k v (object root) = elim (entry "_meta" root) [
  | none ↦ object root
  | some cur ↦ in_meta k v root cur
]
written_through k v payload = payload

unfoldable pub set_meta : String → Value → Marked → Marked
set_meta k v ev = record ev {
  meta = object (set_entry k v (fields_of ev.meta));
  payload = written_through k v ev.payload;
}

-- The first name that the rules have found.
unfoldable pub apply_msg_names : List NameHit → Marked → Marked
apply_msg_names [] ev = ev
apply_msg_names (n ∷ ns) ev =
    if test (text_dec n.value "") then ev else set_meta "msg_name" (string n.value) ev

unfoldable pub strings : List String → Values
strings [] = nil
strings (s ∷ ss) = cons (string s) (strings ss)

unfoldable pub apply_semantics : List String → Marked → Marked
apply_semantics labels ev =
    if is_nil labels then ev else set_meta "semantic" (array (strings labels)) ev

unfoldable pub add_text : Option String → List String → List String
add_text none rest = rest
add_text (some s) rest = if test (text_dec s "") then rest else s ∷ rest

-- The texts of an array that are not empty.
unfoldable pub texts : Values → List String
texts nil = []
texts (cons v vs) = add_text (as_string v) (texts vs)

unfoldable pub labels_in : Value → List String
labels_in (array vs) = texts vs
labels_in (string s) = if test (text_dec s "") then [] else s ∷ []
labels_in _ = []

unfoldable pub semantic_labels : Marked → List String
semantic_labels ev = elim (entry "semantic" (fields_of ev.meta)) [
  | none ↦ []
  | some v ↦ labels_in v
]

-- The labels that are a role.
abbrev pub is_role : String → Bool
is_role l =
    test (text_dec l "request")
    || (test (text_dec l "response") || test (text_dec l "notification"))

unfoldable pub has_role : List String → Bool
has_role [] = false
has_role (l ∷ ls) = is_role l || has_role ls

-- The role that a direction implies.
unfoldable pub role_of : String → Option String
role_of direction =
    if test (text_dec direction "client_to_server")
    then some "request"
    else if test (text_dec direction "server_to_client")
    then some "response"
    else none

unfoldable pub apply_default_semantics : Marked → Marked
apply_default_semantics ev = elim (role_of ev.direction) [
  | none ↦ ev
  | some label ↦
      if has_role (semantic_labels ev)
      then ev
      else apply_semantics (semantic_labels ev ++ label ∷ []) ev
]

-- The value on which the rules are evaluated.
unfoldable pub with_meta_object : Value → Value → Value
with_meta_object (object root) (object end) = object root
with_meta_object (object root) (object meta) = elim (entry "_meta" root) [
  | none ↦ object (set_entry "_meta" (object meta) root)
  | some v ↦ object root
]
with_meta_object payload meta = payload
