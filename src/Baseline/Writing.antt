-- ===== src/Baseline/Writing.antt =====
-- What the store has after the last loop of Apply.
use gametrace.Prelude.{
  ℕ, ◌≡◌, refl, sym, subst, List, [], ◌∷◌, Option, none, some, arith, All, Bool-cases, Option-cases,
  inl, inr, ◌⊎◌, ◌&&◌,
}
use gametrace.Prelude.Map.{lookup, insert, lookup-insert, All-insert, All-lookup}
use gametrace.Prelude.Keys.{Unique, Unique-insert}
use gametrace.Baseline.Value.{equal}
use gametrace.Baseline.Store.{
  EntityKey, EntityBaseline, MemoryBaselineStore, Items, entity_dec, get, put,
}
use gametrace.Baseline.Sorting.{find}
use gametrace.Baseline.Eviction.{IsBounded, put-Evicts}
use gametrace.Baseline.Manager.{
  Declared, Place, key_of, stored, fetch, effective, advanced, resolve, EnrichedStateChange,
}
use gametrace.Baseline.Apply.{apply_one, apply_loop, with_row, put_all}

-- Every baseline stands under its key.
abbrev pub Keyed : Items → Type 0
Keyed m = All (λ e. e.1.key ≡ e.0) m

find-put :
    (base b : EntityBaseline) (s : MemoryBaselineStore) (j : EntityKey)
    → IsBounded s
    → find j (put base s).items ≡ some b
    → find j (insert entity_dec base.key base s.items) ≡ some b
find-put base b s j v h = (put-Evicts base s v).subset j b h

pub put_all-IsBounded :
    (bs : Items) (s : MemoryBaselineStore) → IsBounded s → IsBounded (put_all bs s)
unfolding put_all
put_all-IsBounded [] s v = v
put_all-IsBounded ((k, c) ∷ bs) s v = put_all-IsBounded bs (put c s) (put-Evicts c s v).bounded

pub find-put_all :
    (bs : Items) (s : MemoryBaselineStore) (k : EntityKey) (b : EntityBaseline)
    → IsBounded s
    → Keyed bs
    → Unique entity_dec bs
    → find k (put_all bs s).items ≡ some b
    → (find k bs ≡ some b) ⊎ ((find k bs ≡ none) × (find k s.items ≡ some b))
unfolding put_all lookup
find-put_all [] s k b v a u h = inr (refl, h)
find-put_all ((j, c) ∷ bs) s k b v a u h =
    elim (find-put_all bs (put c s) k b (put-Evicts c s v).bounded a.1 u.1 h) [
      | inl e ↦ inl (ground (arith, u.0))
      | inr (e, d) ↦
          let there = find-put c b s k v d in
          let at = lookup-insert entity_dec c.key k c s.items in let same = a.0 in ground arith
    ]

module _ (at : Place) (ttl : ℕ) (s : MemoryBaselineStore) (keyed : Keyed s.items) where
  key-stored : (key : EntityKey) → (stored key at.now ttl s).0.key ≡ key
  unfolding stored get
  key-stored key = elim (Option-cases (find key s.items)) [
    | inl e ↦ ground arith
    | inr (b, e) ↦
        let there =
          All-lookup entity_dec (λ (x : EntityKey × EntityBaseline). x.1.key ≡ x.0) key b s.items e
            keyed in
        ground arith
  ]

  key-fetch :
      (key : EntityKey) (touched : Items)
      → Keyed touched
      → (fetch key at.now ttl touched s).0.key ≡ key
  unfolding fetch
  key-fetch key touched k = elim (Option-cases (find key touched)) [
    | inl e ↦ ground (arith, key-stored key)
    | inr (b, e) ↦
        let there =
          All-lookup entity_dec (λ (x : EntityKey × EntityBaseline). x.1.key ≡ x.0) key b touched e
            k in
        ground arith
  ]

  Kept : Items → Type 0
  Kept touched = Keyed touched × Unique entity_dec touched

  apply_one-Kept :
      (item : Declared) (touched : Items) → Kept touched → Kept (apply_one at ttl s item touched).1
  unfolding Kept apply_one advanced
  apply_one-Kept item touched k =
      let key = key_of at item.sc in
      let (base, exists) = fetch key at.now ttl touched s in
      let v = effective item.sc base.state in
      let old = resolve exists base.state item.sc in
      elim (Bool-cases (old.1 && equal old.0 v)) [
        | inl y ↦ rw y k
        | inr n ↦ rw n (
          All-insert entity_dec (λ (x : EntityKey × EntityBaseline). x.1.key ≡ x.0) key
              (advanced at item.sc v base) touched (key-fetch key touched k.0) k.0,
          Unique-insert entity_dec key (advanced at item.sc v base) touched k.1,
        )
      ]

  touched-with_row :
      (row : Option EnrichedStateChange) (out : List EnrichedStateChange × (ℕ × Items))
      → (with_row row out).1.1 ≡ out.1.1
  unfolding with_row
  touched-with_row none out = refl
  touched-with_row (some r) out = refl

  pub apply_loop-Kept :
      (items : List Declared) (touched : Items)
      → Keyed touched × Unique entity_dec touched
      → Keyed (apply_loop at ttl s items touched).1.1
        × Unique entity_dec (apply_loop at ttl s items touched).1.1
  unfolding apply_loop Kept
  apply_loop-Kept [] touched k = k
  apply_loop-Kept (item ∷ items) touched k =
      let (row, next) = apply_one at ttl s item touched in
      subst Kept (sym (touched-with_row row (apply_loop at ttl s items next)))
        (apply_loop-Kept items next (apply_one-Kept item touched k))
