-- ===== src/Rule/Json.antt =====
-- JSON values as sdk/rule sees them. The queries are those of the third-party package gjson and of
-- encoding/json, which the model takes as a parameter.
use gametrace.Prelude.{String, Bool, List, Option}

-- The values of Go's `any` that encoding/json produces and accepts.
mutual
  pub data Any (F : Type 0) : Type 0 where
    null : Any F
    bool : Bool → Any F
    number : F → Any F
    string : String → Any F
    array : Anys F → Any F
    object : Fields F → Any F

  pub data Anys (F : Type 0) : Type 0 where
    nil : Anys F
    cons : Any F → Anys F → Anys F

  pub data Fields (F : Type 0) : Type 0 where
    end : Fields F
    field : String → Any F → Fields F → Fields F

-- gjson.Type
pub data JsonType : Type 0 where
  null_type false_type true_type number_type string_type json_type : JsonType

pub record Gjson : Type 1 where
  -- float64 with its comparisons.
  pub Float : Type 0
  pub float_eq : Float → Float → Bool
  pub float_lt : Float → Float → Bool
  -- gjson.Result and its methods.
  pub Result : Type 0
  pub get : Result → String → Result
  pub result_exists : Result → Bool
  pub type_of : Result → JsonType
  pub num : Result → Float
  pub str : Result → String
  pub truth : Result → Bool
  pub is_array : Result → Bool
  pub elements : Result → List Result
  pub text : Result → String
  pub value : Result → Any Float
  -- json.Marshal, then gjson.ParseBytes; `none` if the value cannot be marshalled.
  pub parse_any : Any Float → Option Result
  -- gjson.Result{}
  pub no_result : Result
