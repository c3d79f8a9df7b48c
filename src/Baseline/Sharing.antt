-- ===== src/Baseline/Sharing.antt =====
-- The baselines that Apply of pkg/state/baseline.go shares with the store and changes where they stand.
use gametrace.Prelude.{
  ℕ, ◌≡◌, refl, ap, suc, [], ◌∷◌, none, some, sym, ◌∙◌, ◌⊎◌, arith, length, Option-cases, inl, inr,
}
use gametrace.Prelude.Map.{lookup, All-lookup}
use gametrace.Prelude.Keys.{Unique}
use gametrace.Baseline.Store.{EntityKey, EntityBaseline, MemoryBaselineStore, Items, entity_dec}
use gametrace.Baseline.Sorting.{find}
use gametrace.Baseline.Eviction.{IsBounded}
use gametrace.Baseline.Apply.{in_place, shared, changed_in_place}
use gametrace.Baseline.Writing.{Keyed}

module _ (now ttl : ℕ) (touched : Items) where
  -- Its keys stay.
  absent-shared :
      (k : EntityKey) (m : Items) → find k m ≡ none → find k (shared now ttl touched m) ≡ none
  unfolding shared lookup
  absent-shared k [] h = refl
  absent-shared k ((j, b) ∷ m) h = ground (arith, absent-shared k m)

  Unique-shared : (m : Items) → Unique entity_dec m → Unique entity_dec (shared now ttl touched m)
  unfolding shared
  Unique-shared [] u = u
  Unique-shared ((k, b) ∷ m) u = (absent-shared k m u.0, Unique-shared m u.1)

  length-shared : (m : Items) → length (shared now ttl touched m) ≡ length m
  unfolding shared
  length-shared [] = refl
  length-shared ((k, b) ∷ m) = ap suc (length-shared m)

  -- An entity that the event has not touched stays as it was.
  find-shared :
      (k : EntityKey) (m : Items)
      → find k touched ≡ none
      → find k (shared now ttl touched m) ≡ find k m
  unfolding shared lookup in_place
  find-shared k [] h = refl
  find-shared k ((j, b) ∷ m) h = ground (arith, find-shared k m h)

  pub found-shared :
      (k : EntityKey) (b : EntityBaseline) (m : Items)
      → (find k touched ≡ some b)
        ⊎ ((find k touched ≡ none) × (find k (shared now ttl touched m) ≡ some b))
      → (find k touched ≡ some b) ⊎ ((find k touched ≡ none) × (find k m ≡ some b))
  found-shared k b m (inl e) = inl e
  found-shared k b m (inr (e, f)) = inr (e, sym (find-shared k m e) ∙ f)

  key-in_place :
      (k : EntityKey) (b : EntityBaseline)
      → Keyed touched
      → b.key ≡ k
      → (in_place now ttl touched k b).key ≡ k
  unfolding in_place
  key-in_place k b a h = elim (Option-cases (find k touched)) [
    | inl e ↦ ground arith
    | inr (c, e) ↦
        let there =
          All-lookup entity_dec (λ (x : EntityKey × EntityBaseline). x.1.key ≡ x.0) k c touched e
            a in
        ground arith
  ]

  pub Keyed-shared : (m : Items) → Keyed touched → Keyed m → Keyed (shared now ttl touched m)
  unfolding shared
  Keyed-shared [] a h = h
  Keyed-shared ((k, b) ∷ m) a h = (key-in_place k b a h.0, Keyed-shared m a h.1)

  pub changed_in_place-IsBounded :
      (s : MemoryBaselineStore) → IsBounded s → IsBounded (changed_in_place now ttl touched s)
  changed_in_place-IsBounded s v = record {
    unique = Unique-shared s.items v.unique;
    fits = λ h. omega (arith, length-shared s.items, v.fits h);
    level = v.level;
  }
