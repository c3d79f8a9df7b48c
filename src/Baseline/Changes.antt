-- ===== src/Baseline/Changes.antt =====
-- StateChange and Validate of pkg/event/event.go, and how the changes are read from an event's values
-- (pkg/event/adapter.go, ExtractStateChanges of event.go).
use gametrace.Prelude.{
  ℕ, String, Bool, true, false, ◌&&◌, ◌||◌, List, [], ◌∷◌, Option, none, some, test, leb, ◌==◌,
  if◌then◌else◌,
}
use gametrace.Prelude.Text.{text_dec, codes}
use gametrace.Baseline.Value.{Value, Values, Fields, as_object, as_array, as_string, as_int, entry}
use gametrace.Baseline.Value.Value.{null, object}
use gametrace.Baseline.Value.Values.{nil, cons}

pub record StateChange : Type 0 where
  pub subject_type : String
  pub subject_id : String
  pub op : String
  pub path : String
  pub before : Value
  pub after : Value
  pub version : ℕ
  pub metadata : Value

pub data ChangeError : Type 0 where
  no_subject_type no_subject_id no_op no_path : ChangeError
  set_null merge_other : ChangeError
  unsupported : String → ChangeError

-- unicode.IsSpace
abbrev is_space : ℕ → Bool
is_space c =
    (leb 9 c && leb c 13)
    || (c == 32
        || (c == 133
            || (c == 160
                || (c == 5760
                    || ((leb 8192 c && leb c 8202)
                        || (c == 8232
                            || (c == 8233 || (c == 8239 || (c == 8287 || c == 12288)))))))))

abbrev all_spaces : List ℕ → Bool
all_spaces [] = true
all_spaces (c ∷ cs) = is_space c && all_spaces cs

-- strings.TrimSpace(s) == ""
abbrev pub is_blank : String → Bool
is_blank s = all_spaces (codes s)

abbrev pub is_op : String → String → Bool
is_op s t = test (text_dec s t)

abbrev pub is_null : Value → Bool
is_null null = true
is_null _ = false

abbrev pub is_object : Value → Bool
is_object (object fs) = true
is_object _ = false

-- What Validate says of the operation and its `after`.
unfoldable pub validate_op : StateChange → Option ChangeError
validate_op sc =
    if is_op sc.op "set"
    then (if is_null sc.after then some set_null else none)
    else if is_op sc.op "merge"
    then (if is_object sc.after then none else some merge_other)
    else if is_op sc.op "delete"
    then none
    else some (unsupported sc.op)

unfoldable pub validate : StateChange → Option ChangeError
validate sc =
    if is_blank sc.subject_type
    then some no_subject_type
    else if is_blank sc.subject_id
    then some no_subject_id
    else if is_blank sc.op
    then some no_op
    else if is_blank sc.path
    then some no_path
    else validate_op sc

-- A field of an item, or what stands for one that is missing or of another kind.
abbrev text_of : String → Fields → String
text_of k fs = elim (entry k fs) [
  | none ↦ ""
  | some v ↦ elim (as_string v) [ none ↦ "" | some s ↦ s ]
]

abbrev value_of : String → Fields → Value
value_of k fs = elim (entry k fs) [ none ↦ null | some v ↦ v ]

abbrev number_in : String → Fields → ℕ
number_in k fs = elim (entry k fs) [ none ↦ 0 | some v ↦ elim (as_int v) [ none ↦ 0 | some n ↦ n ] ]

unfoldable pub change_of : Fields → StateChange
change_of io = record {
  subject_type = text_of "subject_type" io;
  subject_id = text_of "subject_id" io;
  op = text_of "op" io;
  path = text_of "path" io;
  before = value_of "before" io;
  after = value_of "after" io;
  version = number_in "version" io;
  metadata = value_of "metadata" io;
}

-- The loop of ExtractStateChanges: an item that is no object is passed over.
unfoldable pub changes_of : Values → List StateChange
changes_of nil = []
changes_of (cons v vs) =
    let rest = changes_of vs in elim (as_object v) [ none ↦ rest | some io ↦ change_of io ∷ rest ]

-- A slice that is nil is told from none by its length: the loop makes none that is empty and not nil.
unfoldable pub extract : Value → List StateChange
extract v = elim (as_object v) [
  | none ↦ []
  | some obj ↦ elim (entry "_state_changes" obj) [
    | none ↦ []
    | some raw ↦ elim (as_array raw) [ none ↦ [] | some items ↦ changes_of items ]
  ]
]

-- Of an event, what the baselines use of it.
pub record Event : Type 0 where
  pub id : String
  pub timestamp : ℕ
  pub flow_id : String
  pub peer_key : String
  pub analysis : Value
  pub payload : Value

unfoldable pub or_else : List StateChange → List StateChange → List StateChange
or_else [] ys = ys
or_else (x ∷ xs) ys = x ∷ xs

unfoldable pub extract_state_changes : Event → List StateChange
extract_state_changes e = or_else (extract e.analysis) (extract e.payload)
