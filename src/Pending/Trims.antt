-- ===== src/Pending/Trims.antt =====
-- What a push drops: the oldest packets, each of them counted.
use gametrace.Prelude.{
  ℕ, zero, suc, ◌+◌, ◌-◌, ◌≤◌, ◌<◌, ◌≡◌, refl, ◌∙◌, List, [], ◌∷◌, some, arith, length, drop, inl,
  inr, le_cases, ◌⊎◌,
}
use gametrace.Pending.Queue.{PendingQueue, len, pop_head, drop_oldest}

module _ {P : Type 0} (size : P → ℕ) where
  -- The loop drops some of the oldest packets, counts them, and does nothing else.
  pub record Trims (q r : PendingQueue P) : Type 0 where
    pub count : ℕ
    pub items : r.items ≡ drop count q.items
    pub dropped : r.dropped ≡ q.dropped + count
    pub few : count ≤ length q.items

  Trims-none : (q : PendingQueue P) → Trims q q
  Trims-none q = record { count = 0; items = refl; dropped = omega arith; few = omega arith }

  drop_oldest_stops :
      (fuel : ℕ) (q : PendingQueue P)
      → (q.bytes ≤ q.max_bytes) ⊎ (len q ≤ 1)
      → drop_oldest size (suc fuel) q ≡ some q
  unfolding drop_oldest
  drop_oldest_stops fuel q h = ground arith

  drop_oldest_goes :
      (fuel : ℕ) (x y : P) (ys : List P) (b m d : ℕ)
      → m < b
      → drop_oldest size
          (suc fuel)
          (record { items = x ∷ y ∷ ys; bytes = b; max_bytes = m; dropped = d })
        ≡ drop_oldest size fuel
            (record { items = y ∷ ys; bytes = b - size x; max_bytes = m; dropped = suc d })
  unfolding drop_oldest pop_head
  drop_oldest_goes fuel x y ys b m d h = ground arith

  pub drop_oldest-Trims :
      (fuel : ℕ) (xs : List P) (b m d : ℕ)
      → let q : PendingQueue P = record { items = xs; bytes = b; max_bytes = m; dropped = d } in
        (r : PendingQueue P) × (drop_oldest size fuel q ≡ some r) × Trims q r
  unfolding drop_oldest
  drop_oldest-Trims zero xs b m d = (_, refl, Trims-none _)
  drop_oldest-Trims (suc fuel) [] b m d =
      (_, drop_oldest_stops fuel _ (inr (omega arith)), Trims-none _)
  drop_oldest-Trims (suc fuel) (x ∷ []) b m d =
      (_, drop_oldest_stops fuel _ (inr (omega arith)), Trims-none _)
  drop_oldest-Trims (suc fuel) (x ∷ y ∷ ys) b m d = elim (le_cases b m) [
    | inl fits ↦ (_, drop_oldest_stops fuel _ (inl fits), Trims-none _)
    | inr over ↦
        let (r, e, t) = drop_oldest-Trims fuel (y ∷ ys) (b - size x) m (suc d) in
        (
          r,
          drop_oldest_goes fuel x y ys b m d over ∙ e,
          record {
            count = suc t.count;
            items = t.items;
            dropped = omega (arith, t.dropped);
            few = omega (arith, t.few);
          },
        )
  ]
