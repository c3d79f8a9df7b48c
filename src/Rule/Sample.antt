-- ===== src/Rule/Sample.antt =====
-- A concrete reading of gjson for runs: results are JSON values whose numbers are natural, and a path is
-- one key of an object.
use gametrace.Prelude.{ℕ, String, Bool, true, false, List, [], ◌∷◌, Option, none, some, ltb, ◌==◌}
use gametrace.Rule.Json.{
  Any, Anys, null, bool, number, string, array, object, nil, cons, end, field, JsonType, null_type,
  false_type, true_type, number_type, string_type, json_type, Gjson,
}
use gametrace.Rule.Evaluation.{field_of}

abbrev pub Found : Type 0
Found = Option (Any ℕ)

abbrev get_key : Found → String → Found
get_key (some (object fs)) k = field_of k fs
get_key _ k = none

abbrev type_found : Found → JsonType
type_found none = null_type
type_found (some null) = null_type
type_found (some (bool true)) = true_type
type_found (some (bool false)) = false_type
type_found (some (number n)) = number_type
type_found (some (string s)) = string_type
type_found (some (array vs)) = json_type
type_found (some (object fs)) = json_type

abbrev number_found : Found → ℕ
number_found (some (number n)) = n
number_found _ = 0

abbrev text_found : Found → String
text_found (some (string s)) = s
text_found _ = ""

abbrev truth_found : Found → Bool
truth_found (some (bool b)) = b
truth_found _ = false

abbrev exists_found : Found → Bool
exists_found none = false
exists_found (some v) = true

abbrev array_found : Found → Bool
array_found (some (array vs)) = true
array_found _ = false

abbrev list_of : Anys ℕ → List Found
list_of nil = []
list_of (cons v vs) = some v ∷ list_of vs

abbrev elements_found : Found → List Found
elements_found (some (array vs)) = list_of vs
elements_found _ = []

abbrev value_found : Found → Any ℕ
value_found none = null
value_found (some v) = v

abbrev pub sample : Gjson
sample = record {
  Float = ℕ;
  float_eq = λ a b. a == b;
  float_lt = ltb;
  Result = Found;
  get = get_key;
  result_exists = exists_found;
  type_of = type_found;
  num = number_found;
  str = text_found;
  truth = truth_found;
  is_array = array_found;
  elements = elements_found;
  text = text_found;
  value = value_found;
  parse_any = λ v. some (some v);
  no_result = none;
}

-- {"op": "login", "seq": "7", "size": 3}
abbrev pub login : Found
login =
    some (
      object (field "op" (string "login") (field "seq" (string "7") (field "size" (number 3) end))))
