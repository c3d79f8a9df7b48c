-- ===== src/Baseline/Value.antt =====
-- Value of pkg/event/value.go, Merge of value_conv.go. A value is the field that its Kind names; an int64
-- is its two's complement, a float64 its IEEE bits, and a map the list of its entries.
use gametrace.Prelude.{
  ℕ, ◌/◌, ◌%◌, ◌^◌, suc, String, Bool, true, false, not, ◌&&◌, ◌||◌, List, [], ◌∷◌, Option, none,
  some, test, leb, ◌==◌, if◌then◌else◌,
}
use gametrace.Prelude.Text.{text_dec}

mutual
  pub data Value : Type 0 where
    null : Value
    bool : Bool → Value
    int : ℕ → Value
    uint : ℕ → Value
    float : ℕ → Value
    string : String → Value
    bytes : List ℕ → Value
    array : Values → Value
    object : Fields → Value

  pub data Values : Type 0 where
    nil : Values
    cons : Value → Values → Values

  pub data Fields : Type 0 where
    end : Fields
    field : String → Value → Fields → Fields

unfoldable pub as_object : Value → Option Fields
as_object (object fs) = some fs
as_object _ = none

unfoldable pub as_array : Value → Option Values
as_array (array vs) = some vs
as_array _ = none

unfoldable pub as_string : Value → Option String
as_string (string s) = some s
as_string _ = none

unfoldable pub as_int : Value → Option ℕ
as_int (int i) = some i
as_int (uint u) = if leb (suc u) (2 ^ 63) then some u else none
as_int _ = none

-- v, ok := m[k]
unfoldable pub entry : String → Fields → Option Value
entry k end = none
entry k (field j v fs) = let rest = entry k fs in if test (text_dec j k) then some v else rest

unfoldable pub size : Fields → ℕ
size end = 0
size (field k v fs) = suc (size fs)

-- result[k] = v
unfoldable pub set_entry : String → Value → Fields → Fields
set_entry k v end = field k v end
set_entry k v (field j w fs) =
    let rest = set_entry k v fs in if test (text_dec j k) then field k v fs else field j w rest

-- The second loop of Merge: the entries of the first map are written to the second.
unfoldable pub set_entries : Fields → Fields → Fields
set_entries end fs = fs
set_entries (field k v es) fs = set_entries es (set_entry k v fs)

-- The error of Merge is that one of the values is no object.
unfoldable pub merge : Value → Value → Option Value
merge (object a) (object b) = some (object (set_entries b a))
merge _ _ = none

-- `==` on float64.
abbrev is_nan : ℕ → Bool
is_nan x = x / 2 ^ 52 % 2 ^ 11 == 2047 && not (x % 2 ^ 52 == 0)

abbrev pub float_eq : ℕ → ℕ → Bool
float_eq x y =
    not (is_nan x) && (not (is_nan y) && (x == y || (x % 2 ^ 63 == 0 && y % 2 ^ 63 == 0)))

abbrev bool_eq : Bool → Bool → Bool
bool_eq true b = b
bool_eq false b = not b

unfoldable pub bytes_eq : List ℕ → List ℕ → Bool
bytes_eq [] [] = true
bytes_eq (x ∷ xs) (y ∷ ys) = let rest = bytes_eq xs ys in x == y && rest
bytes_eq _ _ = false

unfoldable mutual
  pub equal : Value → Value → Bool
  equal null null = true
  equal (bool a) (bool b) = bool_eq a b
  equal (int a) (int b) = a == b
  equal (uint a) (uint b) = a == b
  equal (float a) (float b) = float_eq a b
  equal (string a) (string b) = test (text_dec a b)
  equal (bytes a) (bytes b) = bytes_eq a b
  equal (array a) (array b) = arrays_eq a b
  equal (object a) (object b) = let all = covers a b in size a == size b && all
  equal _ _ = false

  pub arrays_eq : Values → Values → Bool
  arrays_eq nil nil = true
  arrays_eq (cons v vs) (cons w ws) =
      let here = equal v w in let rest = arrays_eq vs ws in here && rest
  arrays_eq _ _ = false

  -- Every entry of the first map has an equal one in the second.
  pub covers : Fields → Fields → Bool
  covers end gs = true
  covers (field k v fs) gs =
      let rest = covers fs gs in elim (entry k gs) [ none ↦ false | some w ↦ equal v w && rest ]
