-- ===== src/Prelude/Sublists.antt =====
-- Lists with some elements left out, by the library's relation.
use Prim.Native.Nat.{ℕ, zero, suc, ◌≤◌}
use mathlib.Core.Path.{◌≡◌, refl, ap₂, ◌∙◌}
use mathlib.Core.List.{List, [], ◌∷◌, ◌++◌, Sublistᴰ}
use mathlib.Core.List.Sublistᴰ.{slnil, cons, cons-cons}
use native.Mathlib.Omega.{arith}
use gametrace.Prelude.Lists.{length, drop}

module _ {ℓ} {A : Type ℓ} where
  pub Sublistᴰ-snoc :
      {xs ys : List A} (x : A) → Sublistᴰ xs ys → Sublistᴰ (xs ++ x ∷ []) (ys ++ x ∷ [])
  Sublistᴰ-snoc x slnil = cons-cons refl slnil
  Sublistᴰ-snoc x (cons s) = cons (Sublistᴰ-snoc x s)
  Sublistᴰ-snoc x (cons-cons e s) = cons-cons e (Sublistᴰ-snoc x s)

  Sublistᴰ-trans :
      {ys zs : List A} → Sublistᴰ ys zs → (xs : List A) → Sublistᴰ xs ys → Sublistᴰ xs zs
  Sublistᴰ-trans slnil xs s = s
  Sublistᴰ-trans (cons t) xs s = cons (Sublistᴰ-trans t xs s)
  Sublistᴰ-trans (cons-cons e t) xs (cons s) = cons (Sublistᴰ-trans t xs s)
  Sublistᴰ-trans (cons-cons e t) (x ∷ xs) (cons-cons d s) =
      cons-cons (d ∙ e) (Sublistᴰ-trans t xs s)

  Sublistᴰ-refl : (xs : List A) → Sublistᴰ xs xs
  Sublistᴰ-refl [] = slnil
  Sublistᴰ-refl (x ∷ xs) = cons-cons refl (Sublistᴰ-refl xs)

  drop-Sublistᴰ : (l : List A) (k : ℕ) (xs : List A) → Sublistᴰ (l ++ drop k xs) (l ++ xs)
  drop-Sublistᴰ (a ∷ l) k xs = cons-cons refl (drop-Sublistᴰ l k xs)
  drop-Sublistᴰ [] zero xs = Sublistᴰ-refl xs
  drop-Sublistᴰ [] (suc k) [] = slnil
  drop-Sublistᴰ [] (suc k) (x ∷ xs) = cons (drop-Sublistᴰ [] k xs)

  -- What is left out of the end of a list is left out.
  pub Sublistᴰ-drop :
      (l : List A) (k : ℕ) (xs : List A) {ys : List A}
      → Sublistᴰ (l ++ xs) ys
      → Sublistᴰ (l ++ drop k xs) ys
  Sublistᴰ-drop l k xs s = Sublistᴰ-trans s (l ++ drop k xs) (drop-Sublistᴰ l k xs)

  length-Sublistᴰ : {xs ys : List A} → Sublistᴰ xs ys → length xs ≤ length ys
  length-Sublistᴰ slnil = omega arith
  length-Sublistᴰ (cons s) = omega (arith, length-Sublistᴰ s)
  length-Sublistᴰ (cons-cons e s) = omega (arith, length-Sublistᴰ s)

  -- Nothing is left out of a list that is as long.
  pub Sublistᴰ-eq : {xs ys : List A} → Sublistᴰ xs ys → length xs ≡ length ys → xs ≡ ys
  Sublistᴰ-eq slnil h = refl
  Sublistᴰ-eq (cons s) h = absurd (omega (arith, length-Sublistᴰ s))
  Sublistᴰ-eq (cons-cons e s) h = ap₂ (λ x xs. x ∷ xs) e (Sublistᴰ-eq s (omega arith))
