-- ===== src/Prelude/Map.antt =====
-- Go's `map` as an association list over a key type with decidable equality. Code that ranges over a
-- map sees its entries in an order that Go leaves open; such code takes the order as an argument.
use Prim.Native.Nat.{suc, ◌≤◌}
use mathlib.Core.Path.{◌≡◌, ap, ap₂, subst, ◌∙◌}
use mathlib.Core.Logic.{ite, if_pos, if_neg, inl, inr}
use mathlib.Core.List.{List, [], ◌∷◌}
use mathlib.Core.Option.{Option, none, some}
use native.Mathlib.Omega.{arith}
use gametrace.Prelude.Lists.{length, All, select}
use gametrace.Prelude.Tests.{Bool-cases}
use mathlib.Core.Bool.{Bool, true}

abbrev pub Map {ℓ} : Type ℓ → Type ℓ → Type ℓ
Map K V = List (K × V)

module _ {ℓ} {K V : Type ℓ} (dec : Discrete K) where
  unfoldable pub lookup : K → Map K V → Option V
  lookup k [] = none
  lookup k ((j, v) ∷ m) = ite (dec j k) (some v) (lookup k m)

  -- delete(m, k)
  unfoldable pub delete : K → Map K V → Map K V
  delete k [] = []
  delete k ((j, v) ∷ m) = let rest = delete k m in ite (dec j k) rest ((j, v) ∷ rest)

  -- m[k] = v
  unfoldable pub insert : K → V → Map K V → Map K V
  unfolding delete
  insert k v m = (k, v) ∷ delete k m

  pub lookup-delete :
      (k j : K) (m : Map K V) → lookup j (delete k m) ≡ ite (dec k j) none (lookup j m)
  unfolding lookup delete
  lookup-delete k j [] = ground arith
  lookup-delete k j ((i, v) ∷ m) = ground (arith, lookup-delete k j m)

  pub lookup-insert :
      (k j : K) (v : V) (m : Map K V)
      → lookup j (insert k v m) ≡ ite (dec k j) (some v) (lookup j m)
  unfolding lookup insert
  lookup-insert k j v m = ground (arith, lookup-delete k j m)

  pub lookup-insert_self : (k : K) (v : V) (m : Map K V) → lookup k (insert k v m) ≡ some v
  lookup-insert_self k v m = ground (arith, lookup-insert k k v m)

pub ruleset map_laws = (lookup-delete, lookup-insert)

module _ {ℓ} {K V : Type ℓ} (dec : Discrete K) where
  pub length-delete_le : (k : K) (m : Map K V) → length (delete dec k m) ≤ length m
  unfolding delete
  length-delete_le k [] = omega arith
  length-delete_le k ((j, v) ∷ m) = ground (arith, length-delete_le k m)

  -- Writing to a key that is there does not make the map longer.
  length-delete_lt :
      (k : K) (v : V) (m : Map K V)
      → lookup dec k m ≡ some v
      → suc (length (delete dec k m)) ≤ length m
  unfolding lookup delete
  length-delete_lt k v [] h = cc
  length-delete_lt k v ((j, w) ∷ m) h = ground (arith, length-delete_lt k v m, length-delete_le k m)

  pub length-insert_le : (k : K) (v : V) (m : Map K V) → length (insert dec k v m) ≤ suc (length m)
  unfolding insert
  length-insert_le k v m = omega (arith, length-delete_le k m)

  pub length-insert_present :
      (k : K) (v w : V) (m : Map K V)
      → lookup dec k m ≡ some w
      → length (insert dec k v m) ≤ length m
  unfolding insert
  length-insert_present k v w m h = omega (arith, length-delete_lt k w m h)

  pub lookup-select :
      (p : K × V → Bool) (k : K) (v : V) (m : Map K V)
      → lookup dec k m ≡ some v
      → p (k, v) ≡ true
      → lookup dec k (select p m) ≡ some v
  unfolding lookup
  lookup-select p k v [] h e = h
  lookup-select p k v ((j, w) ∷ m) h e = elim (dec j k) [
    | yes q ↦
        let same : ◌≡◌ {A = K × V} (j, w) (k, v) = ap₂ (λ i u. (i, u)) q (ground arith) in
        let kept : p (j, w) ≡ true = ap p same ∙ e in
        rw (kept, if_pos _ q) (ap (λ (x : K × V). some x.1) same)
    | no n ↦
        let there = lookup-select p k v m (ground arith) e in
        elim (Bool-cases (p (j, w))) [ inl y ↦ rw (y, if_neg _ n) there | inr x ↦ rw x there ]
  ]

module _ {ℓ κ} {K V : Type ℓ} (dec : Discrete K) (P : K × V → Type κ) where
  pub All-delete : (k : K) (m : Map K V) → All P m → All P (delete dec k m)
  unfolding delete
  All-delete k [] h = h
  All-delete k ((j, v) ∷ m) h = elim (dec j k) [
    | yes e ↦ rw (if_pos _ e) (All-delete k m h.1)
    | no n ↦ rw (if_neg _ n) (h.0, All-delete k m h.1)
  ]

  pub All-insert : (k : K) (v : V) (m : Map K V) → P (k, v) → All P m → All P (insert dec k v m)
  unfolding insert
  All-insert k v m p h = (p, All-delete k m h)

  pub All-lookup : (k : K) (v : V) (m : Map K V) → lookup dec k m ≡ some v → All P m → P (k, v)
  unfolding lookup
  All-lookup k v [] h a = absurd (ground arith)
  All-lookup k v ((j, w) ∷ m) h a = elim (dec j k) [
    | yes e ↦ subst P (ap₂ (λ i u. (i, u)) e (ground arith)) a.0
    | no n ↦ All-lookup k v m (ground arith) a.1
  ]
