-- ===== src/Prelude/Keys.antt =====
-- Maps whose keys are all different, as those of Go are, and their size.
use Prim.Native.Nat.{suc}
use mathlib.Core.Path.{◌≡◌, refl, ap, subst}
use mathlib.Core.Logic.{if_pos, if_neg, inl, inr}
use mathlib.Core.List.{[], ◌∷◌}
use mathlib.Core.Option.{none, some}
use native.Mathlib.Omega.{arith}
use mathlib.Core.Bool.{Bool}
use gametrace.Prelude.Lists.{length, select}
use gametrace.Prelude.Tests.{Bool-cases}
use gametrace.Prelude.Map.{Map, lookup, insert, delete, lookup-delete}

module _ {ℓ} {K V : Type ℓ} (dec : Discrete K) where
  abbrev pub Unique : Map K V → Type ℓ
  Unique [] = Unit
  Unique ((k, v) ∷ m) = (lookup dec k m ≡ none) × Unique m

  pub Unique-delete : (k : K) (m : Map K V) → Unique m → Unique (delete dec k m)
  unfolding delete
  Unique-delete k [] u = u
  Unique-delete k ((j, v) ∷ m) u = elim (dec j k) [
    | yes e ↦ rw (if_pos _ e) (Unique-delete k m u.1)
    | no n ↦ rw (if_neg _ n) (ground (arith, lookup-delete dec k j m, u.0), Unique-delete k m u.1)
  ]

  lookup-delete_self : (k : K) (m : Map K V) → lookup dec k (delete dec k m) ≡ none
  lookup-delete_self k m = ground (arith, lookup-delete dec k k m)

  pub Unique-insert : (k : K) (v : V) (m : Map K V) → Unique m → Unique (insert dec k v m)
  unfolding insert
  Unique-insert k v m u = (lookup-delete_self k m, Unique-delete k m u)

  length-delete_absent :
      (k : K) (m : Map K V) → lookup dec k m ≡ none → length (delete dec k m) ≡ length m
  unfolding lookup delete
  length-delete_absent k [] h = refl
  length-delete_absent k ((j, v) ∷ m) h = ground (arith, length-delete_absent k m)

  pub length-delete_present :
      (k : K) (v : V) (m : Map K V)
      → Unique m
      → lookup dec k m ≡ some v
      → suc (length (delete dec k m)) ≡ length m
  unfolding lookup delete
  length-delete_present k v [] u h = absurd (ground arith)
  length-delete_present k v ((j, w) ∷ m) u h = elim (dec j k) [
    | yes e ↦
        rw (if_pos _ e)
          (ap suc (length-delete_absent k m (subst (λ i. lookup dec i m ≡ none) e u.0)))
    | no n ↦ rw (if_neg _ n) (ap suc (length-delete_present k v m u.1 (ground arith)))
  ]

  -- A new key makes a map longer by one, and a key that is there leaves its size alone.
  pub length-insert_absent :
      (k : K) (v : V) (m : Map K V)
      → lookup dec k m ≡ none
      → length (insert dec k v m) ≡ suc (length m)
  unfolding insert
  length-insert_absent k v m h = omega (arith, length-delete_absent k m h)

  pub length-insert_known :
      (k : K) (v w : V) (m : Map K V)
      → Unique m
      → lookup dec k m ≡ some w
      → length (insert dec k v m) ≡ length m
  unfolding insert
  length-insert_known k v w m u h = omega (arith, length-delete_present k w m u h)

  lookup-select_absent :
      (p : K × V → Bool) (k : K) (m : Map K V)
      → lookup dec k m ≡ none
      → lookup dec k (select p m) ≡ none
  unfolding lookup
  lookup-select_absent p k [] h = h
  lookup-select_absent p k ((j, v) ∷ m) h = ground (arith, lookup-select_absent p k m)

  pub Unique-select : (p : K × V → Bool) (m : Map K V) → Unique m → Unique (select p m)
  Unique-select p [] u = u
  Unique-select p ((k, v) ∷ m) u = elim (Bool-cases (p (k, v))) [
    | inl y ↦ rw y (lookup-select_absent p k m u.0, Unique-select p m u.1)
    | inr n ↦ rw n (Unique-select p m u.1)
  ]
