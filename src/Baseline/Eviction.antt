-- ===== src/Baseline/Eviction.antt =====
-- What Put and its eviction keep of the store.
use gametrace.Prelude.{
  ℕ, zero, suc, ◌+◌, ◌-◌, ◌/◌, ◌≤◌, ◌<◌, ◌≡◌, refl, subst, [], ◌∷◌, none, some, arith, length, leb,
  Bool-cases, inl, inr,
}
use gametrace.Prelude.Map.{lookup, delete, lookup-delete, All-lookup}
use gametrace.Prelude.Keys.{Unique, Unique-delete, Unique-insert, length-delete_present}
use gametrace.Baseline.Store.{
  EntityKey, EntityBaseline, MemoryBaselineStore, Items, entity_dec, sort_seen, delete_first,
  evict_locked, put, written, is_over,
}
use gametrace.Baseline.Sorting.{
  find, Rising, Rising-sort_seen, Unique-sort_seen, find-sort_seen, length-sort_seen,
}

-- A list of the entries of a map, in any order.
Lists : Items → Items → Type 0
Lists xs m = Unique entity_dec xs × ((j : EntityKey) → find j xs ≡ find j m)

Lists-tail :
    (k : EntityKey) (b : EntityBaseline) (xs m : Items)
    → Lists ((k, b) ∷ xs) m
    → Lists xs (delete entity_dec k m)
unfolding Lists lookup
Lists-tail k b xs m h = (h.0.1, λ j. ground (arith, h.1 j, h.0.0, lookup-delete entity_dec k j m))

Lists-head :
    (k : EntityKey) (b : EntityBaseline) (xs m : Items) → Lists ((k, b) ∷ xs) m → find k m ≡ some b
unfolding Lists lookup
Lists-head k b xs m h = ground (arith, h.1 k)

Unique-delete_first :
    (n : ℕ) (xs m : Items) → Unique entity_dec m → Unique entity_dec (delete_first n xs m)
unfolding delete_first
Unique-delete_first zero xs m u = u
Unique-delete_first (suc n) [] m u = u
Unique-delete_first (suc n) ((k, b) ∷ xs) m u =
    Unique-delete_first n xs (delete entity_dec k m) (Unique-delete entity_dec k m u)

length-delete_first :
    (n : ℕ) (xs m : Items)
    → n ≤ length xs
    → Lists xs m
    → Unique entity_dec m
    → length (delete_first n xs m) + n ≡ length m
unfolding delete_first
length-delete_first zero xs m h l u = omega arith
length-delete_first (suc n) [] m h l u = absurd (omega arith)
length-delete_first (suc n) ((k, b) ∷ xs) m h l u =
    let rest =
      length-delete_first n xs (delete entity_dec k m) (omega arith) (Lists-tail k b xs m l)
        (Unique-delete entity_dec k m u) in
    let here = length-delete_present entity_dec k b m u (Lists-head k b xs m l) in omega arith

find-delete_first :
    (n : ℕ) (xs m : Items) (j : EntityKey) (b : EntityBaseline)
    → find j (delete_first n xs m) ≡ some b
    → find j m ≡ some b
unfolding delete_first
find-delete_first zero xs m j b h = h
find-delete_first (suc n) [] m j b h = h
find-delete_first (suc n) ((k, c) ∷ xs) m j b h =
    let there = find-delete_first n xs (delete entity_dec k m) j b h in
    ground (arith, lookup-delete entity_dec k j m)

-- Nothing that is left is older than what was deleted.
abbrev pub Older : Items → Items → Type 0
Older m kept =
    (i j : EntityKey) (a b : EntityBaseline)
    → find i m ≡ some a
    → find i kept ≡ none
    → find j kept ≡ some b
    → a.last_seen ≤ b.last_seen

delete_first-Older : (n : ℕ) (xs m : Items) → Lists xs m → Rising xs → Older m (delete_first n xs m)
unfolding delete_first Lists
delete_first-Older zero xs m l r = λ i j a b x y z. absurd (cc)
delete_first-Older (suc n) [] m l r = λ i j a b x y z. absurd (cc)
delete_first-Older (suc n) ((k, c) ∷ xs) m l r = λ i j a b x y z.
    let rest = Lists-tail k c xs m l in
    elim (entity_dec k i) [
      | yes e ↦
          let head : find i m ≡ some c = subst (λ q. find q m ≡ some c) e (Lists-head k c xs m l) in
          let there = find-delete_first n xs (delete entity_dec k m) j b z in
          let later =
            All-lookup entity_dec (λ (p : EntityKey × EntityBaseline). c.last_seen ≤ p.1.last_seen)
              j b xs (ground (arith, rest.1 j)) r.0 in
          ground arith
      | no d ↦
          delete_first-Older n xs (delete entity_dec k m) rest r.1 i j a b
            (ground (arith, lookup-delete entity_dec k i m)) y z
    ]

-- The keys differ, the size is within the level of the next eviction, and this is at most an eighth above
-- the limit.
pub record IsBounded (s : MemoryBaselineStore) : Type 0 where
  pub unique : Unique entity_dec s.items
  pub fits : 0 < s.max_entries → length s.items ≤ s.sweep_at
  pub level : s.sweep_at ≤ s.max_entries + s.max_entries / 8

-- What became of a store: it is bounded, what it holds was there before, what it has lost is no newer
-- than what it has kept, and the losses are counted.
pub record Evicts (s t : MemoryBaselineStore) : Type 0 where
  pub bounded : IsBounded t
  pub small : 0 < t.max_entries → length t.items ≤ t.max_entries + t.max_entries / 8
  pub subset :
      (j : EntityKey) (b : EntityBaseline) → find j t.items ≡ some b → find j s.items ≡ some b
  pub older : Older s.items t.items
  pub losses : t.evicted + length t.items ≡ s.evicted + length s.items

Older-refl : (m : Items) → Older m m
Older-refl m i j a b x y z = absurd (cc)

Lists-sort_seen : (m : Items) → Unique entity_dec m → Lists (sort_seen m) m
unfolding Lists
Lists-sort_seen m u = (Unique-sort_seen m u, λ j. find-sort_seen j m u)

evict_locked-Evicts :
    (s : MemoryBaselineStore) → Unique entity_dec s.items → Evicts s (evict_locked s)
unfolding evict_locked
evict_locked-Evicts s u =
    let over = length s.items - s.max_entries in
    let m = s.items in
    let l = Lists-sort_seen m u in
    elim (Bool-cases (leb (length s.items) s.max_entries)) [
      | inl y ↦ rw y (record {
        bounded = record { unique = u; fits = λ h. ground arith; level = ground arith };
        small = λ h. ground arith;
        subset = λ j b h. h;
        older = Older-refl m;
        losses = refl;
      })
      | inr n ↦
          let count =
            length-delete_first over (sort_seen m) m (omega (arith, length-sort_seen m)) l u in
          let gt : s.max_entries < length m = ground arith in
          rw n (record {
            bounded = record {
              unique = Unique-delete_first over (sort_seen m) m u;
              fits = λ h. omega arith;
              level = ground arith;
            };
            small = λ h. omega arith;
            subset = λ j b h. find-delete_first over (sort_seen m) m j b h;
            older = delete_first-Older over (sort_seen m) m l (Rising-sort_seen m);
            losses = omega arith;
          })
    ]

-- Put writes the baseline and, of a bounded store, leaves a bounded one, of at most an eighth more than
-- the limit, whose entries are among those it had after the write; whatever was evicted was last seen no
-- later than any that is left, and is counted.
pub put-Evicts :
    (base : EntityBaseline) (s : MemoryBaselineStore)
    → IsBounded s
    → Evicts (written base s) (put base s)
unfolding put
put-Evicts base s h =
    let u = Unique-insert entity_dec base.key base s.items h.unique in
    elim (Bool-cases (is_over (written base s))) [
      | inl y ↦ rw y (evict_locked-Evicts (written base s) u)
      | inr n ↦ rw n (record {
        bounded = record { unique = u; fits = λ p. ground arith; level = h.level };
        small = λ p. ground (arith, h.level);
        subset = λ j b e. e;
        older = Older-refl _;
        losses = refl;
      })
    ]
