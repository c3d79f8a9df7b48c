-- ===== src/Prelude/Text.antt =====
-- Go strings: decidable equality, and the order of their code points, which for UTF-8 is the byte
-- order by which Go compares them.
use Prim.Native.Nat.{ℕ, zero, suc, ◌+◌, ◌-◌, ◌*◌, ◌/◌, ◌%◌, ◌<◌, compare, Ordering}
use mathlib.Core.Logic.{inl, inr}
use Prim.Native.Char.{code}
use Prim.Native.String.append
use Prim.Native.String.{String, ◌++◌ as text_append}
use mathlib.Core.Path.{◌≡◌, refl, ap, ap₂, ◌∙◌}
use mathlib.Core.Bool.{Bool, true, false}
use mathlib.Core.List.{List, [], ◌∷◌, ◌++◌, reverse}
use mathlib.Core.Option.{get_or}
use gametrace.Prelude.Tests.{if◌then◌else◌, ltb, ◌==◌, le_cases, if_true, if_false}
use gametrace.Prelude.Lists.{get_elem?}
use native.Mathlib.Omega.{arith}
use text.Mathlib.Text.{◌==◌ as str_eq}
use text.Mathlib.TextEquality.{eq_iff, Char-path}

dec_by : (s t : String) (b : Bool) → (str_eq s t) ≡ b → Dec (s ≡ t)
dec_by s t true e = yes ((eq_iff s t).0 e)
dec_by s t false e = no (λ p. cc (e, (eq_iff s t).1 p))

unfoldable pub text_dec : Discrete String
unfolding dec_by
text_dec s t = dec_by s t (str_eq s t) refl

abbrev pub codes : String → List ℕ
codes String.[] = []
codes (String.◌∷◌ c s) = code c ∷ codes s

pub codes-injective : (s t : String) → codes s ≡ codes t → s ≡ t
codes-injective String.[] String.[] h = refl
codes-injective String.[] (String.◌∷◌ d t) h = cc
codes-injective (String.◌∷◌ c s) String.[] h = cc
codes-injective (String.◌∷◌ c s) (String.◌∷◌ d t) h =
    ap₂ (λ a b. String.◌∷◌ a b) (Char-path c d (cc)) (codes-injective s t (cc))

-- a < b on lists of numbers, first difference first.
unfoldable pub lex_lt : List ℕ → List ℕ → Bool
lex_lt xs [] = false
lex_lt [] (y ∷ ys) = true
lex_lt (x ∷ xs) (y ∷ ys) =
    let rest = lex_lt xs ys in
    elim (compare x y) [ Ordering.lt ↦ true | Ordering.eq ↦ rest | Ordering.gt ↦ false ]

pub lex_lt-asymm : (xs ys : List ℕ) → lex_lt xs ys ≡ true → lex_lt ys xs ≡ false
unfolding lex_lt
lex_lt-asymm xs [] h = cc
lex_lt-asymm [] (y ∷ ys) h = refl
lex_lt-asymm (x ∷ xs) (y ∷ ys) h = ground (arith, lex_lt-asymm xs ys)

pub lex_lt-total : (xs ys : List ℕ) → lex_lt xs ys ≡ false → lex_lt ys xs ≡ false → xs ≡ ys
unfolding lex_lt
lex_lt-total [] [] h k = refl
lex_lt-total [] (y ∷ ys) h k = cc
lex_lt-total (x ∷ xs) [] h k = cc
lex_lt-total (x ∷ xs) (y ∷ ys) h k = ground (arith, lex_lt-total xs ys)

-- Go's `s < t` on strings.
unfoldable pub text_lt : String → String → Bool
text_lt s t = lex_lt (codes s) (codes t)

pub text_lt-asymm : (s t : String) → text_lt s t ≡ true → text_lt t s ≡ false
unfolding text_lt
text_lt-asymm s t h = lex_lt-asymm (codes s) (codes t) h

pub text_lt-total : (s t : String) → text_lt s t ≡ false → text_lt t s ≡ false → s ≡ t
unfolding text_lt
text_lt-total s t h k = codes-injective s t (lex_lt-total (codes s) (codes t) h k)

unfoldable pub concat : List String → String
concat [] = ""
concat (s ∷ ss) = text_append s (concat ss)

-- strings.HasPrefix, HasSuffix and Contains, on code points.
unfoldable pub begins : List ℕ → List ℕ → Bool
begins xs [] = true
begins [] (y ∷ ys) = false
begins (x ∷ xs) (y ∷ ys) = let rest = begins xs ys in if x == y then rest else false

unfoldable pub occurs : List ℕ → List ℕ → Bool
occurs [] ys = begins [] ys
occurs (x ∷ xs) ys = let rest = occurs xs ys in if begins (x ∷ xs) ys then true else rest

pub has_prefix : String → String → Bool
has_prefix s t = begins (codes s) (codes t)

pub has_suffix : String → String → Bool
has_suffix s t = begins (reverse (codes s)) (reverse (codes t))

pub contains : String → String → Bool
contains s t = occurs (codes s) (codes t)

abbrev digit : ℕ → String
digit n = get_or (get_elem? ("0" ∷ "1" ∷ "2" ∷ "3" ∷ "4" ∷ "5" ∷ "6" ∷ "7" ∷ "8" ∷ "9" ∷ []) n) ""

decimal_loop : ℕ → ℕ → String → String
decimal_loop zero n rest = rest
decimal_loop (suc fuel) n rest =
    let more = decimal_loop fuel (n / 10) (text_append (digit (n % 10)) rest) in
    if ltb n 10 then text_append (digit n) rest else more

-- %d; a number has no more digits than its value and one.
unfoldable pub decimal : ℕ → String
unfolding decimal_loop
decimal n = decimal_loop (suc n) n ""

-- The number that a text ends with, behind its last `#`.
abbrev read_step : ℕ → ℕ → ℕ
read_step n c = if c == 35 then 0 else n * 10 + (c - 48)

read_from : ℕ → List ℕ → ℕ
read_from n [] = n
read_from n (c ∷ cs) = read_from (read_step n c) cs

pub number_of : String → ℕ
unfolding read_from
number_of s = read_from 0 (codes s)

codes-append : (s t : String) → codes (text_append s t) ≡ codes s ++ codes t
codes-append String.[] t = ap codes (append.nil t)
codes-append (String.◌∷◌ c s) t =
    ap codes (append.cons c s t) ∙ ap (◌∷◌ (code c)) (codes-append s t)

codes-digit :
    (k : ℕ) (rest : String) → k < 10 → codes (text_append (digit k) rest) ≡ (48 + k) ∷ codes rest
codes-digit zero rest h = codes-append _ rest
codes-digit (suc zero) rest h = codes-append _ rest
codes-digit (suc (suc zero)) rest h = codes-append _ rest
codes-digit (suc (suc (suc zero))) rest h = codes-append _ rest
codes-digit (suc (suc (suc (suc zero)))) rest h = codes-append _ rest
codes-digit (suc (suc (suc (suc (suc zero))))) rest h = codes-append _ rest
codes-digit (suc (suc (suc (suc (suc (suc zero)))))) rest h = codes-append _ rest
codes-digit (suc (suc (suc (suc (suc (suc (suc zero))))))) rest h = codes-append _ rest
codes-digit (suc (suc (suc (suc (suc (suc (suc (suc zero)))))))) rest h = codes-append _ rest
codes-digit (suc (suc (suc (suc (suc (suc (suc (suc (suc zero))))))))) rest h = codes-append _ rest
codes-digit (suc (suc (suc (suc (suc (suc (suc (suc (suc (suc k)))))))))) rest h =
    absurd (omega arith)

read_from-digit :
    (k n : ℕ) (rest : String)
    → k < 10
    → read_from n (codes (text_append (digit k) rest)) ≡ read_from (n * 10 + k) (codes rest)
unfolding read_from
read_from-digit k n rest h =
    ap (read_from n) (codes-digit k rest h) ∙ ap (λ m. read_from m (codes rest)) (ground arith)

read_from-decimal_loop :
    (fuel n : ℕ) (rest : String)
    → n < fuel
    → read_from 0 (codes (decimal_loop fuel n rest)) ≡ read_from n (codes rest)
unfolding decimal_loop
read_from-decimal_loop zero n rest h = absurd (omega arith)
read_from-decimal_loop (suc fuel) n rest h = elim (le_cases 10 n) [
  | inl ge ↦
      ap (λ s. read_from 0 (codes s)) (if_false _ _ {b = ltb n 10} (ground arith))
      ∙ (read_from-decimal_loop fuel (n / 10) (text_append (digit (n % 10)) rest) (omega arith)
          ∙ (read_from-digit (n % 10) (n / 10) rest (omega arith)
              ∙ ap (λ m. read_from m (codes rest)) (omega arith)))
  | inr lt ↦
      ap (λ s. read_from 0 (codes s)) (if_true _ _ {b = ltb n 10} (ground arith))
      ∙ (read_from-digit n 0 rest lt ∙ ap (λ m. read_from m (codes rest)) (omega arith))
]

read_from-append : (n : ℕ) (xs ys : List ℕ) → read_from n (xs ++ ys) ≡ read_from (read_from n xs) ys
unfolding read_from
read_from-append n [] ys = refl
read_from-append n (x ∷ xs) ys = read_from-append (read_step n x) xs ys

-- What stands before the last `#` does not matter.
pub number_of-decimal : (s : String) (n : ℕ) → number_of (concat (s ∷ "#" ∷ decimal n ∷ [])) ≡ n
unfolding number_of read_from concat decimal
number_of-decimal s n =
    ap (read_from 0) (codes-append s (text_append "#" (text_append (decimal n) "")))
    ∙ (read_from-append 0 (codes s) (codes (text_append "#" (text_append (decimal n) "")))
        ∙ (ap (read_from (read_from 0 (codes s))) (
              codes-append "#" (text_append (decimal n) "")
              ∙ ap (λ cs. 35 ∷ cs) (codes-append (decimal n) ""))
            ∙ (read_from-append 0 (codes (decimal n)) []
                ∙ read_from-decimal_loop (suc n) n "" (omega arith))))
