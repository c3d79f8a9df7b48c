-- ===== src/Baseline/Sorting.antt =====
-- The order in which eviction sees the entries of the store.
use gametrace.Prelude.{
  ℕ, suc, ◌≤◌, ◌≡◌, refl, ◌∙◌, [], ◌∷◌, Option, none, arith, length, All, All-weaken, ltb,
  Bool-cases, inl, inr,
}
use gametrace.Prelude.Map.{lookup}
use gametrace.Prelude.Keys.{Unique}
use gametrace.Baseline.Store.{EntityKey, EntityBaseline, Items, entity_dec, place_seen, sort_seen}

abbrev pub find : EntityKey → Items → Option EntityBaseline
find k m = lookup entity_dec k m

-- Placing an entry puts it in the map.
find-place_seen :
    (k j : EntityKey) (b : EntityBaseline) (m : Items)
    → find k m ≡ none
    → find j (place_seen (k, b) m) ≡ find j ((k, b) ∷ m)
unfolding place_seen lookup
find-place_seen k j b [] h = refl
find-place_seen k j b ((i, c) ∷ m) h = ground (arith, find-place_seen k j b m)

Unique-place_seen :
    (k : EntityKey) (b : EntityBaseline) (m : Items)
    → find k m ≡ none
    → Unique entity_dec m
    → Unique entity_dec (place_seen (k, b) m)
unfolding place_seen lookup
Unique-place_seen k b [] h u = (refl, tt)
Unique-place_seen k b ((i, c) ∷ m) h u = elim (Bool-cases (ltb c.last_seen b.last_seen)) [
  | inl y ↦
      rw y
        (ground (arith, find-place_seen k i b m, u.0), Unique-place_seen k b m (ground arith) u.1)
  | inr n ↦ rw n (h, u)
]

pub find-sort_seen :
    (j : EntityKey) (m : Items) → Unique entity_dec m → find j (sort_seen m) ≡ find j m
unfolding sort_seen lookup
find-sort_seen j [] u = refl
find-sort_seen j ((k, b) ∷ m) u = ground (
  arith,
  find-place_seen k j b (sort_seen m) (find-sort_seen k m u.1 ∙ u.0),
  find-sort_seen j m u.1,
)

pub Unique-sort_seen : (m : Items) → Unique entity_dec m → Unique entity_dec (sort_seen m)
unfolding sort_seen
Unique-sort_seen [] u = tt
Unique-sort_seen ((k, b) ∷ m) u =
    Unique-place_seen k b (sort_seen m) (find-sort_seen k m u.1 ∙ u.0) (Unique-sort_seen m u.1)

length-place_seen :
    (e : EntityKey × EntityBaseline) (m : Items) → length (place_seen e m) ≡ suc (length m)
unfolding place_seen
length-place_seen e [] = refl
length-place_seen e (x ∷ m) = ground (arith, length-place_seen e m)

pub length-sort_seen : (m : Items) → length (sort_seen m) ≡ length m
unfolding sort_seen
length-sort_seen [] = refl
length-sort_seen (e ∷ m) = omega (arith, length-place_seen e (sort_seen m), length-sort_seen m)

-- The times rise.
abbrev pub Rising : Items → Type 0
Rising [] = Unit
Rising (e ∷ m) = All (λ x. e.1.last_seen ≤ x.1.last_seen) m × Rising m

All-place_seen :
    (n : ℕ) (e : EntityKey × EntityBaseline) (m : Items)
    → n ≤ e.1.last_seen
    → All (λ x. n ≤ x.1.last_seen) m
    → All (λ x. n ≤ x.1.last_seen) (place_seen e m)
unfolding place_seen
All-place_seen n e [] h a = (h, tt)
All-place_seen n e (x ∷ m) h a = elim (Bool-cases (ltb x.1.last_seen e.1.last_seen)) [
  | inl y ↦ rw y (a.0, All-place_seen n e m h a.1)
  | inr z ↦ rw z (h, a)
]

Rising-place_seen :
    (e : EntityKey × EntityBaseline) (m : Items) → Rising m → Rising (place_seen e m)
unfolding place_seen
Rising-place_seen e [] r = (tt, tt)
Rising-place_seen e (x ∷ m) r = elim (Bool-cases (ltb x.1.last_seen e.1.last_seen)) [
  | inl y ↦ rw y (All-place_seen x.1.last_seen e m (ground arith) r.0, Rising-place_seen e m r.1)
  | inr z ↦
      let le : e.1.last_seen ≤ x.1.last_seen = ground arith in
      let rest =
        All-weaken (λ (y : EntityKey × EntityBaseline). x.1.last_seen ≤ y.1.last_seen)
          (λ y. e.1.last_seen ≤ y.1.last_seen) (λ y l. omega arith) m r.0 in
      rw z ((le, rest), r)
]

pub Rising-sort_seen : (m : Items) → Rising (sort_seen m)
unfolding sort_seen
Rising-sort_seen [] = tt
Rising-sort_seen (e ∷ m) = Rising-place_seen e (sort_seen m) (Rising-sort_seen m)
