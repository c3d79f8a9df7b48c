-- ===== src/Spool/Confirming.antt =====
-- AckN of pkg/spool/queue.go: what it confirms is gone, what it does not confirm stays readable.
use gametrace.Prelude.{
  ℕ, ◌-◌, ◌≤◌, min, ◌≡◌, refl, List, [], ◌∷◌, Option, none, some, arith, drop, ltb, if◌then◌else◌,
  ap, sym, ◌∙◌, subst, ◌⊎◌, inl, inr, ℕ_discrete, All,
}
use gametrace.Prelude.Map.{Map, lookup, lookup-delete}
use gametrace.Spool.Frame.{Entry}
use gametrace.Spool.Queue.{
  Cursor, Queue, Retention, read_cur, persist_cursor, drop_segment, drop_before, cleanup, confirm,
  ack_n,
}
use gametrace.Spool.Fifo.{
  StoredAll, start_of, Follows, Chained, IsHolding, StoredAll-drop, Chained-drop,
}

-- Entries stand in segments that go up.
chain_ge :
    (w : Cursor) (head : ℕ) (es : List Entry)
    → head ≤ (start_of w es).segment
    → Chained w es
    → All (λ (e : Entry). head ≤ e.seg) es
chain_ge w head [] h c = tt
chain_ge w head (e ∷ es) h c = (h, chain_ge w head es (after c.0) c.1)
  where
    after : Follows e (start_of w es) → head ≤ (start_of w es).segment
    after (inl f) = omega (arith, h, f.0)
    after (inr f) = omega (arith, h, f)

StoredAll-keep :
    (files files' : Map ℕ (List ℕ)) (head : ℕ) (es : List Entry) (recs : List (List ℕ))
    → ((seg : ℕ) → head ≤ seg → lookup ℕ_discrete seg files' ≡ lookup ℕ_discrete seg files)
    → All (λ (e : Entry). head ≤ e.seg) es
    → StoredAll files es recs
    → StoredAll files' es recs
StoredAll-keep files files' head [] [] k a s = tt
StoredAll-keep files files' head [] (rec ∷ recs) k a s = elim s [ ]
StoredAll-keep files files' head (e ∷ es) [] k a s = elim s [ ]
StoredAll-keep files files' head (e ∷ es) (rec ∷ recs) k a s =
    let (file, there, own) = s.0 in
    ((file, k e.seg a.0 ∙ there, own), StoredAll-keep files files' head es recs k a.1 s.1)

drop_before-frame :
    (head : ℕ) (segs : List ℕ) (q : Queue)
    → ((drop_before head segs q).entries ≡ q.entries)
      × ((drop_before head segs q).wr_cur ≡ q.wr_cur)
      × ((drop_before head segs q).next_idx ≡ q.next_idx)
unfolding drop_before drop_segment
drop_before-frame head [] q = (refl, refl, refl)
drop_before-frame head (seg ∷ segs) q =
    ground (arith, drop_before-frame head segs (if ltb seg head then drop_segment seg q else q))

drop_step :
    (head seg s : ℕ) (q : Queue)
    → head ≤ s
    → lookup ℕ_discrete s (if ltb seg head then drop_segment seg q else q).files
      ≡ lookup ℕ_discrete s q.files
unfolding drop_segment
drop_step head seg s q h = ground (arith, h, lookup-delete ℕ_discrete seg s q.files)

drop_before-lookup :
    (head : ℕ) (segs : List ℕ) (q : Queue) (s : ℕ)
    → head ≤ s
    → lookup ℕ_discrete s (drop_before head segs q).files ≡ lookup ℕ_discrete s q.files
unfolding drop_before
drop_before-lookup head [] q s h = refl
drop_before-lookup head (seg ∷ segs) q s h =
    drop_before-lookup head segs (if ltb seg head then drop_segment seg q else q) s h
    ∙ drop_step head seg s q h

read_cur-start : (q : Queue) → read_cur q ≡ start_of q.wr_cur q.entries
unfolding read_cur
read_cur-start q = go q.entries
  where
    go :
        (es : List Entry)
        → (elim es as (λ x. Cursor) [
          | [] ↦ q.wr_cur
          | e ∷ rest ↦ record { segment = e.seg; offset = e.off }
        ])
          ≡ start_of q.wr_cur es
    go [] = refl
    go (e ∷ es) = refl

cleanup-IsHolding :
    (q : Queue) (recs : List (List ℕ))
    → IsHolding q recs
    → IsHolding (cleanup q) recs × ((cleanup q).next_idx ≡ q.next_idx)
unfolding cleanup
cleanup-IsHolding q recs h = go q.retention
  where
    head : ℕ
    head = (read_cur q).segment

    kept : Queue
    kept = drop_before head q.handles q

    holding : IsHolding kept recs
    holding =
        let (entries, cur, idx) = drop_before-frame head q.handles q in
        record {
          stored =
              subst (λ es. StoredAll kept.files es recs) (sym entries)
                (StoredAll-keep q.files kept.files head q.entries recs
                  (drop_before-lookup head q.handles q)
                  (chain_ge q.wr_cur head q.entries
                    (omega (arith, ap (λ (c : Cursor). c.segment) (read_cur-start q))) h.chained)
                  h.stored);
          chained =
              subst (λ c. Chained c kept.entries) (sym cur)
                (subst (Chained q.wr_cur) (sym entries) h.chained);
        }

    go :
        (o : Option Retention)
        → IsHolding
            (elim o as (λ x. Queue) [
              | some r ↦ q
              | none ↦ drop_before (read_cur q).segment q.handles q
            ])
            recs
          × ((elim o as (λ x. Queue) [
            | some r ↦ q
            | none ↦ drop_before (read_cur q).segment q.handles q
          ]).next_idx
              ≡ q.next_idx)
    go (some r) = (h, refl)
    go none = (holding, (drop_before-frame head q.handles q).2)

confirm-IsHolding :
    (k : ℕ) (q : Queue) (recs : List (List ℕ))
    → IsHolding q recs
    → IsHolding (confirm k q) (drop k recs)
unfolding confirm
confirm-IsHolding k q recs h = record {
  stored = StoredAll-drop k q.files q.entries recs h.stored;
  chained = Chained-drop k q.wr_cur q.entries h.chained;
}

persist-IsHolding :
    (q : Queue) (recs : List (List ℕ)) → IsHolding q recs → IsHolding (persist_cursor q) recs
unfolding persist_cursor
persist-IsHolding q recs h = record { stored = h.stored; chained = h.chained }

persist_frame : (q : Queue) → (persist_cursor q).next_idx ≡ q.next_idx
unfolding persist_cursor
persist_frame q = refl

confirm_frame : (k : ℕ) (q : Queue) → (confirm k q).next_idx ≡ q.next_idx - k
unfolding confirm
confirm_frame k q = refl

ack_by :
    (n : ℕ) (q : Queue)
    → ((min n q.next_idx ≡ 0) × (ack_n n q ≡ q))
      ⊎ ((ack_n n q ≡ cleanup (persist_cursor (confirm (min n q.next_idx) q)))
          ⊎ (ack_n n q ≡ cleanup (confirm (min n q.next_idx) q)))
unfolding ack_n
ack_by n q = ground arith

-- AckN takes the first records away, as many as asked for but none that is not in flight; the queue
-- holds the others, whatever segments it removes.
pub ack_n-IsHolding :
    (n : ℕ) (q : Queue) (recs : List (List ℕ))
    → IsHolding q recs
    → IsHolding (ack_n n q) (drop (min n q.next_idx) recs)
      × ((ack_n n q).next_idx ≡ q.next_idx - min n q.next_idx)
ack_n-IsHolding n q recs h = elim (ack_by n q) [
  | inl (none_left, same) ↦ (
    subst (λ p. IsHolding p (drop k recs)) (sym same)
        (subst (λ j. IsHolding q (drop j recs)) (sym none_left) h),
    ap (λ (p : Queue). p.next_idx) same ∙ omega (arith, none_left),
  )
  | inr (inl same) ↦ both same (persist-IsHolding q' (drop k recs) held) (persist_frame q')
  | inr (inr same) ↦ both same held refl
]
  where
    k : ℕ
    k = min n q.next_idx

    q' : Queue
    q' = confirm k q

    held : IsHolding q' (drop k recs)
    held = confirm-IsHolding k q recs h

    both :
        {p : Queue}
        → ack_n n q ≡ cleanup p
        → IsHolding p (drop k recs)
        → p.next_idx ≡ q'.next_idx
        → IsHolding (ack_n n q) (drop k recs) × ((ack_n n q).next_idx ≡ q.next_idx - k)
    both {p} same i idx =
        let (clean, kept) = cleanup-IsHolding p (drop k recs) i in
        (
          subst (λ x. IsHolding x (drop k recs)) (sym same) clean,
          ap (λ (x : Queue). x.next_idx) same ∙ (kept ∙ (idx ∙ confirm_frame k q)),
        )
