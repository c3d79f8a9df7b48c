-- ===== src/SemanticHook/Shapes.antt =====
-- The labels that an event's meta values show, whatever their shape, apart from how the code reads them.
use gametrace.Prelude.{
  String, true, false, ◌≡◌, ◌≢◌, ◌⊎◌, inl, inr, refl, List, [], ◌∷◌, Option, none, some, All, arith,
}
use gametrace.Prelude.Text.{text_dec}
use gametrace.Baseline.Value.{Value, Values, as_string}
use gametrace.Baseline.Value.Value.{string, array, object, null, bool, int, uint, float, bytes}
use gametrace.Baseline.Value.Values.{nil, cons}
use gametrace.SemanticHook.Labels.{strings, add_text, texts, labels_in, has_role, role_of}
use gametrace.SemanticHook.Roles.{NotEmpty, labels_of}

-- The labels of an array are its texts that are not empty, in order.
pub data Texts : Values → List String → Type 0 where
  no_more : Texts nil []
  text :
      (s : String) (vs : Values) (ls : List String)
      → s ≢ ""
      → Texts vs ls
      → Texts (cons (string s) vs) (s ∷ ls)
  blank : (vs : Values) (ls : List String) → Texts vs ls → Texts (cons (string "") vs) ls
  no_text :
      (v : Value) (vs : Values) (ls : List String)
      → ((s : String) → v ≢ string s)
      → Texts vs ls
      → Texts (cons v vs) ls

-- A value under "semantic" shows labels: an array its texts, a text itself, and anything else none.
pub data Shows : Option Value → List String → Type 0 where
  absent : Shows none []
  one : (s : String) → s ≢ "" → Shows (some (string s)) (s ∷ [])
  empty_one : Shows (some (string "")) []
  many : (vs : Values) (ls : List String) → Texts vs ls → Shows (some (array vs)) ls
  no_labels :
      (v : Value)
      → ((s : String) → v ≢ string s)
      → ((vs : Values) → v ≢ array vs)
      → Shows (some v) []

-- One of the labels is a role.
abbrev pub IsRole : String → Type 0
IsRole l = (l ≡ "request") ⊎ ((l ≡ "response") ⊎ (l ≡ "notification"))

abbrev pub ShowsRole : List String → Type 0
ShowsRole [] = ⊥
ShowsRole (l ∷ ls) = IsRole l ⊎ ShowsRole ls

-- The role that a direction implies.
abbrev pub Implies : String → String → Type 0
Implies direction r =
    ((direction ≡ "client_to_server") × (r ≡ "request"))
    ⊎ ((direction ≡ "server_to_client") × (r ≡ "response"))

no_string : (v : Value) → ((s : String) → v ≢ string s) → as_string v ≡ none
unfolding as_string
no_string (string s) n = absurd (n s refl)
no_string null n = refl
no_string (bool b) n = refl
no_string (int i) n = refl
no_string (uint u) n = refl
no_string (float f) n = refl
no_string (bytes b) n = refl
no_string (array vs) n = refl
no_string (object fs) n = refl

texts-Texts : (vs : Values) (ls : List String) → Texts vs ls → texts vs ≡ ls
unfolding texts add_text as_string
texts-Texts (_) (_) no_more = refl
texts-Texts (_) (_) (text s vs ls n t) = let e = texts-Texts vs ls t in ground arith
texts-Texts (_) (_) (blank vs ls t) = let e = texts-Texts vs ls t in ground arith
texts-Texts (_) (_) (no_text v vs ls n t) = rw (no_string v n) (texts-Texts vs ls t)

nothing :
    (v : Value) → ((s : String) → v ≢ string s) → ((vs : Values) → v ≢ array vs) → labels_in v ≡ []
unfolding labels_in
nothing (string s) n m = absurd (n s refl)
nothing null n m = refl
nothing (bool b) n m = refl
nothing (int i) n m = refl
nothing (uint u) n m = refl
nothing (float f) n m = refl
nothing (bytes b) n m = refl
nothing (array vs) n m = absurd (m vs refl)
nothing (object fs) n m = refl

pub labels_of-Shows : (o : Option Value) (ls : List String) → Shows o ls → labels_of o ≡ ls
unfolding labels_of labels_in
labels_of-Shows (_) (_) absent = refl
labels_of-Shows (_) (_) (one s n) = ground arith
labels_of-Shows (_) (_) empty_one = ground arith
labels_of-Shows (_) (_) (many vs ls t) = texts-Texts vs ls t
labels_of-Shows (_) (_) (no_labels v n m) = nothing v n m

Texts-strings : (ls : List String) → All NotEmpty ls → Texts (strings ls) ls
unfolding strings
Texts-strings [] a = no_more
Texts-strings (l ∷ ls) a = text l (strings ls) ls (λ e. ground arith) (Texts-strings ls a.1)

pub Shows-strings : (ls : List String) → All NotEmpty ls → Shows (some (array (strings ls))) ls
Shows-strings ls a = many (strings ls) ls (Texts-strings ls a)

pub has_role-ShowsRole : (ls : List String) → ShowsRole ls → has_role ls ≡ true
unfolding has_role
has_role-ShowsRole [] h = elim h [ ]
has_role-ShowsRole (l ∷ ls) (inl e) = ground arith
has_role-ShowsRole (l ∷ ls) (inr h) = ground (arith, has_role-ShowsRole ls h)

pub has_no_role : (ls : List String) → (ShowsRole ls → ⊥) → has_role ls ≡ false
unfolding has_role
has_no_role [] n = refl
has_no_role (l ∷ ls) n =
    let rest = has_no_role ls (λ h. n (inr h)) in
    let a : l ≢ "request" = λ e. n (inl (inl e)) in
    let b : l ≢ "response" = λ e. n (inl (inr (inl e))) in
    let c : l ≢ "notification" = λ e. n (inl (inr (inr e))) in ground arith

pub role_of-Implies : (direction r : String) → Implies direction r → role_of direction ≡ some r
unfolding role_of text_dec
role_of-Implies direction r (inl (d, e)) = rw (d, e) refl
role_of-Implies direction r (inr (d, e)) = rw (d, e) refl
