-- ===== src/Pending/Newest.antt =====
-- What pushes keep: the most of the newest packets that fit.
use gametrace.Prelude.{
  ℕ, zero, suc, ◌+◌, ◌-◌, ◌≤◌, ◌<◌, ◌≡◌, refl, sym, ap, ◌∙◌, List, [], ◌∷◌, ◌++◌, Option, none,
  some, arith, length, length-append, leb, if◌then◌else◌, inl, inr, append_assoc, append-nil,
  is_nil, le_cases, if_false, ◌||◌,
}
use gametrace.Pending.Queue.{PendingQueue, new_pending_queue, pop_head, drop_oldest, push}

module _ {P : Type 0} (size : P → ℕ) where
  abbrev pub total : List P → ℕ
  total [] = 0
  total (x ∷ xs) = size x + total xs

  total-append : (xs ys : List P) → total (xs ++ ys) ≡ total xs + total ys
  total-append [] ys = omega arith
  total-append (x ∷ xs) ys = omega (arith, total-append xs ys)

  -- The longest end of a list that fits in `max`, and at least its last packet.
  unfoldable pub newest : ℕ → List P → List P
  newest max [] = []
  newest max (x ∷ xs) =
      let rest = newest max xs in if leb (total (x ∷ xs)) max || is_nil xs then x ∷ xs else rest

  abbrev pub with_items : List P → ℕ → PendingQueue P → PendingQueue P
  with_items xs d q = record q { items = xs; bytes = total xs; dropped = d }

  length-newest-le : (max : ℕ) (xs : List P) → length (newest max xs) ≤ length xs
  unfolding newest
  length-newest-le max [] = omega arith
  length-newest-le max (x ∷ xs) = ground (arith, length-newest-le max xs)

  newest_fits : (max : ℕ) (xs : List P) → total xs ≤ max → newest max xs ≡ xs
  unfolding newest
  newest_fits max [] h = refl
  newest_fits max (x ∷ xs) h = ground arith

  newest_drops :
      (max : ℕ) (x y : P) (ys : List P)
      → max < total (x ∷ y ∷ ys)
      → newest max (x ∷ y ∷ ys) ≡ newest max (y ∷ ys)
  unfolding newest
  newest_drops max x y ys h =
      if_false _ _ {b = leb (total (x ∷ y ∷ ys)) max || is_nil (y ∷ ys)} (ground arith)

  drop_oldest_fits :
      (fuel : ℕ) (q : PendingQueue P) → q.bytes ≤ q.max_bytes → drop_oldest size fuel q ≡ some q
  unfolding drop_oldest
  drop_oldest_fits zero q h = refl
  drop_oldest_fits (suc fuel) q h = ground arith

  drop_oldest_drops :
      (fuel : ℕ) (x y : P) (ys : List P) (d : ℕ) (q : PendingQueue P)
      → q.max_bytes < total (x ∷ y ∷ ys)
      → drop_oldest size (suc fuel) (with_items (x ∷ y ∷ ys) d q)
        ≡ drop_oldest size fuel (with_items (y ∷ ys) (suc d) q)
  unfolding drop_oldest pop_head
  drop_oldest_drops fuel x y ys d q h = ground arith

  newest-single : (max : ℕ) (x : P) → newest max (x ∷ []) ≡ x ∷ []
  unfolding newest
  newest-single max x = ground arith

  drop_oldest-single :
      (fuel : ℕ) (x : P) (d : ℕ) (q : PendingQueue P)
      → drop_oldest size (suc fuel) (with_items (x ∷ []) d q)
        ≡ some (
            with_items
              (newest q.max_bytes (x ∷ []))
              (d + (1 - length (newest q.max_bytes (x ∷ []))))
              q)
  unfolding drop_oldest
  drop_oldest-single fuel x d q = ground (arith, newest-single q.max_bytes x)

  drop_oldest-newest :
      (fuel : ℕ) (xs : List P) (d : ℕ) (q : PendingQueue P)
      → length xs ≤ fuel
      → drop_oldest size fuel (with_items xs d q)
        ≡ some (
            with_items (newest q.max_bytes xs) (d + (length xs - length (newest q.max_bytes xs))) q)
  drop_oldest-newest fuel [] d q h =
      drop_oldest_fits fuel (with_items [] d q) (omega arith)
      ∙ ground (arith, newest_fits q.max_bytes [] (omega arith))
  drop_oldest-newest zero (x ∷ xs) d q h = absurd (omega arith)
  drop_oldest-newest (suc fuel) (x ∷ []) d q h = drop_oldest-single fuel x d q
  drop_oldest-newest (suc fuel) (x ∷ y ∷ ys) d q h =
      elim (le_cases (total (x ∷ y ∷ ys)) q.max_bytes) [
        | inl fits ↦
            drop_oldest_fits (suc fuel) (with_items (x ∷ y ∷ ys) d q) fits
            ∙ ground (arith, newest_fits q.max_bytes (x ∷ y ∷ ys) fits)
        | inr over ↦
            drop_oldest_drops fuel x y ys d q over
            ∙ (drop_oldest-newest fuel (y ∷ ys) (suc d) q (omega arith)
                ∙ ground (
                  arith,
                  newest_drops q.max_bytes x y ys over,
                  length-newest-le q.max_bytes (y ∷ ys),
                ))
      ]

  newest-append :
      (max : ℕ) (xs : List P) (p : P)
      → newest max (newest max xs ++ p ∷ []) ≡ newest max (xs ++ p ∷ [])
  newest-append max [] p = ap (λ ys. newest max (ys ++ p ∷ [])) (newest_fits max [] (omega arith))
  newest-append max (x ∷ []) p = ap (λ ys. newest max (ys ++ p ∷ [])) (newest-single max x)
  newest-append max (x ∷ y ∷ ys) p = elim (le_cases (total (x ∷ y ∷ ys)) max) [
    | inl fits ↦ ap (λ zs. newest max (zs ++ p ∷ [])) (newest_fits max (x ∷ y ∷ ys) fits)
    | inr over ↦
        ap (λ zs. newest max (zs ++ p ∷ [])) (newest_drops max x y ys over)
        ∙ (newest-append max (y ∷ ys) p
            ∙ sym (
                newest_drops max x y (ys ++ p ∷ [])
                  (omega (arith, total-append (x ∷ y ∷ ys) (p ∷ [])))))
  ]

  -- The queue after `history` has been pushed.
  abbrev pub after : List P → PendingQueue P → PendingQueue P
  after history q =
      with_items (newest q.max_bytes history) (length history - length (newest q.max_bytes history))
        q

  push-after :
      (p : P) (history : List P) (q : PendingQueue P)
      → push size p (after history q) ≡ some (after (history ++ p ∷ []) q)
  unfolding push
  push-after p history q =
      let kept = newest q.max_bytes history in
      let d = length history - length kept in
      let start : record (after history q) { items = kept ++ p ∷ []; bytes = total kept + size p }
          ≡ with_items (kept ++ p ∷ []) d q =
        ground (arith, total-append kept (p ∷ [])) in
      ap (drop_oldest size (suc (length kept))) start
      ∙ (drop_oldest-newest (suc (length kept)) (kept ++ p ∷ []) d q
            (omega (arith, length-append kept (p ∷ [])))
          ∙ ground (
            arith,
            newest-append q.max_bytes history p,
            length-append kept (p ∷ []),
            length-append history (p ∷ []),
            length-newest-le q.max_bytes history,
            length-newest-le q.max_bytes (kept ++ p ∷ []),
          ))

  unfoldable pub pushes : List P → PendingQueue P → Option (PendingQueue P)
  pushes [] q = some q
  pushes (p ∷ ps) q = elim (push size p q) [ none ↦ none | some r ↦ pushes ps r ]

  pushes-after :
      (history ps : List P) (q : PendingQueue P)
      → pushes ps (after history q) ≡ some (after (history ++ ps) q)
  unfolding pushes
  pushes-after history [] q = ap (λ h. some (after h q)) (sym (append-nil history))
  pushes-after history (p ∷ ps) q =
      rw (pushes, push-after p history q)
        (pushes-after (history ++ p ∷ []) ps q
          ∙ ap (λ h. some (after h q)) (append_assoc history (p ∷ []) ps))

  -- However the packets come, a queue that began empty holds the longest end of their sequence that
  -- fits in its bytes, and at least the last; the rest have been counted as dropped, and no push
  -- panics.
  pub pushes-newest :
      (max : ℕ) (ps : List P)
      → pushes ps (new_pending_queue max) ≡ some (after ps (new_pending_queue max))
  pushes-newest max ps =
      ap (pushes ps)
        (ground (arith, newest_fits (new_pending_queue {P = P} max).max_bytes [] (omega arith)))
      ∙ pushes-after [] ps (new_pending_queue max)
