-- ===== src/Spool/Counts.antt =====
-- The accounts of Queue in pkg/spool/queue.go: the bytes and the records that wait.
use gametrace.Prelude.{
  ℕ, ◌+◌, ◌-◌, ◌≤◌, min, ◌≡◌, refl, List, [], ◌∷◌, ◌++◌, Option, none, some, arith, length, take,
  drop, ltb, if◌then◌else◌, ap, sym, ◌∙◌, subst, ◌⊎◌, inl, inr, length-append, length-drop,
  length-take, take-append-drop,
}
use gametrace.Spool.Frame.{header_size, Entry, frame}
use gametrace.Spool.Queue.{
  at_least_one, counted, Retention, Queue, Write, append, enter, rolled, roll_segment, write_file,
  note_seg_record, span_of, next_run, run_length, next, read_cur, persist_cursor, drop_segment,
  drop_before, cleanup, confirm, ack_n, requeue, close,
}

-- The count of bytes is that of the records that wait, within the limit; what is in flight are some of
-- them.
pub record IsCounted (q : Queue) : Type 0 where
  pub weighed : q.bytes ≡ span_of q.entries
  pub flying : q.next_idx ≤ length q.entries
  pub limited : q.bytes ≤ q.max_bytes

pub data Operation : Type 0 where
  appends : List ℕ → ℕ → ℕ → Write → Operation
  takes : ℕ → Operation
  confirms : ℕ → Operation
  requeues closes : Operation

unfoldable pub apply : Operation → Queue → Queue
apply (appends rec ts now w) q = (append rec ts now w q).1
apply (takes n) q = (next n q).1
apply (confirms n) q = ack_n n q
apply requeues q = requeue q
apply closes q = close q

pub span_of-append : (xs ys : List Entry) → span_of (xs ++ ys) ≡ span_of xs + span_of ys
span_of-append [] ys = omega arith
span_of-append (x ∷ xs) ys = omega (arith, span_of-append xs ys)

-- The parts of a queue that the accounts are about.
record Same (p q : Queue) : Type 0 where
  entries : p.entries ≡ q.entries
  next_idx : p.next_idx ≡ q.next_idx
  bytes : p.bytes ≡ q.bytes
  max_bytes : p.max_bytes ≡ q.max_bytes

Same-IsCounted : (p q : Queue) → Same p q → IsCounted q → IsCounted p
Same-IsCounted p q s c = record {
  weighed = s.bytes ∙ (c.weighed ∙ ap span_of (sym s.entries));
  flying = ground (arith, s.next_idx, ap length s.entries, c.flying);
  limited = ground (arith, s.bytes, s.max_bytes, c.limited);
}

written_Same : (buf : List ℕ) (w : Write) (q : Queue) → Same (write_file buf w (rolled q)).1 q
unfolding write_file rolled roll_segment
written_Same buf w q = record {
  entries = ground arith;
  next_idx = ground arith;
  bytes = ground arith;
  max_bytes = ground arith;
}

enter-IsCounted :
    (rec : List ℕ) (ts now : ℕ) (q : Queue)
    → q.bytes + (header_size + length rec) ≤ q.max_bytes
    → IsCounted q
    → IsCounted (enter rec ts now q)
unfolding enter note_seg_record
enter-IsCounted rec ts now q h c = record {
  weighed = omega (
    arith,
    c.weighed,
    span_of-append q.entries
        (record { seg = q.wr_cur.segment; off = q.wr_cur.offset; n = length rec } ∷ []),
  );
  flying = omega (
    arith,
    c.flying,
    length-append q.entries
        (record { seg = q.wr_cur.segment; off = q.wr_cur.offset; n = length rec } ∷ []),
  );
  limited = h;
}

append_cases :
    (rec : List ℕ) (ts now : ℕ) (w : Write) (q : Queue)
    → ((append rec ts now w q).1 ≡ q)
      ⊎ (((append rec ts now w q).1 ≡ counted q)
          ⊎ (((append rec ts now w q).1 ≡ counted (write_file (frame rec) w (rolled q)).1)
              ⊎ (((append rec ts now w q).1
                    ≡ enter rec ts now (write_file (frame rec) w (rolled q)).1)
                  × (q.bytes + (header_size + length rec) ≤ q.max_bytes))))
unfolding append
append_cases rec ts now w q = ground arith

counted-IsCounted : (q : Queue) → IsCounted q → IsCounted (counted q)
counted-IsCounted q c = record { weighed = c.weighed; flying = c.flying; limited = c.limited }

append-IsCounted :
    (rec : List ℕ) (ts now : ℕ) (w : Write) (q : Queue)
    → IsCounted q
    → IsCounted (append rec ts now w q).1
append-IsCounted rec ts now w q c = elim (append_cases rec ts now w q) [
  | inl h ↦ subst IsCounted (sym h) c
  | inr (inl h) ↦ subst IsCounted (sym h) (counted-IsCounted q c)
  | inr (inr (inl h)) ↦ subst IsCounted (sym h) (counted-IsCounted q' c')
  | inr (inr (inr h)) ↦ subst IsCounted (sym h.0) (enter-IsCounted rec ts now q' (room h.1) c')
]
  where
    q' : Queue
    q' = (write_file (frame rec) w (rolled q)).1

    same : Same q' q
    same = written_Same (frame rec) w q

    c' : IsCounted q'
    c' = Same-IsCounted q' q same c

    room :
        q.bytes + (header_size + length rec) ≤ q.max_bytes
        → q'.bytes + (header_size + length rec) ≤ q'.max_bytes
    room h = omega (arith, h, same.bytes, same.max_bytes)

next_run-le : (n : ℕ) (q : Queue) → length (next_run n q) ≤ length q.entries - q.next_idx
unfolding next_run
next_run-le n q = go (drop q.next_idx q.entries) (omega (arith, length-drop q.next_idx q.entries))
  where
    go :
        (avail : List Entry)
        → length avail ≤ length q.entries - q.next_idx
        → length (elim avail as (λ x. List Entry) [
          | [] ↦ []
          | head ∷ rest ↦
              take (run_length head.seg (take (at_least_one n) (head ∷ rest))) (head ∷ rest)
        ])
          ≤ length q.entries - q.next_idx
    go [] h = omega arith
    go (head ∷ rest) h = omega (
      arith,
      h,
      length-take (run_length head.seg (take (at_least_one n) (head ∷ rest))) (head ∷ rest),
    )

next-IsCounted : (n : ℕ) (q : Queue) → IsCounted q → IsCounted (next n q).1
unfolding next
next-IsCounted n q c = record {
  weighed = ground (arith, c.weighed);
  flying = ground (arith, c.flying, next_run-le n q);
  limited = ground (arith, c.limited);
}

drop_segment-Same : (seg : ℕ) (q : Queue) → Same (drop_segment seg q) q
unfolding drop_segment
drop_segment-Same seg q = record { entries = refl; next_idx = refl; bytes = refl; max_bytes = refl }

drop_before-IsCounted :
    (head : ℕ) (segs : List ℕ) (q : Queue) → IsCounted q → IsCounted (drop_before head segs q)
unfolding drop_before
drop_before-IsCounted head [] q c = c
drop_before-IsCounted head (seg ∷ segs) q c =
    drop_before-IsCounted head segs (if ltb seg head then drop_segment seg q else q)
      (Same-IsCounted _ q step c)
  where
    step : Same (if ltb seg head then drop_segment seg q else q) q
    step = record {
      entries = ground (arith, (drop_segment-Same seg q).entries);
      next_idx = ground (arith, (drop_segment-Same seg q).next_idx);
      bytes = ground (arith, (drop_segment-Same seg q).bytes);
      max_bytes = ground (arith, (drop_segment-Same seg q).max_bytes);
    }

cleanup-IsCounted : (q : Queue) → IsCounted q → IsCounted (cleanup q)
unfolding cleanup
cleanup-IsCounted q c = go q.retention
  where
    go :
        (o : Option Retention)
        → IsCounted (elim o as (λ x. Queue) [
          | some r ↦ q
          | none ↦ drop_before (read_cur q).segment q.handles q
        ])
    go none = drop_before-IsCounted (read_cur q).segment q.handles q c
    go (some r) = c

confirm-IsCounted : (k : ℕ) (q : Queue) → k ≤ q.next_idx → IsCounted q → IsCounted (confirm k q)
unfolding confirm
confirm-IsCounted k q h c = record {
  weighed = omega (
    arith,
    c.weighed,
    span_of-append (take k q.entries) (drop k q.entries),
    ap span_of (take-append-drop k q.entries),
  );
  flying = omega (arith, c.flying, h, length-drop k q.entries);
  limited = omega (arith, c.limited);
}

persist-IsCounted : (q : Queue) → IsCounted q → IsCounted (persist_cursor q)
unfolding persist_cursor
persist-IsCounted q c = record { weighed = c.weighed; flying = c.flying; limited = c.limited }

ack_cases :
    (n : ℕ) (q : Queue)
    → (ack_n n q ≡ q)
      ⊎ ((ack_n n q ≡ cleanup (persist_cursor (confirm (min n q.next_idx) q)))
          ⊎ (ack_n n q ≡ cleanup (confirm (min n q.next_idx) q)))
unfolding ack_n
ack_cases n q = ground arith

ack_n-IsCounted : (n : ℕ) (q : Queue) → IsCounted q → IsCounted (ack_n n q)
ack_n-IsCounted n q c = elim (ack_cases n q) [
  | inl h ↦ subst IsCounted (sym h) c
  | inr (inl h) ↦ subst IsCounted (sym h) (cleanup-IsCounted _ (persist-IsCounted q' c'))
  | inr (inr h) ↦ subst IsCounted (sym h) (cleanup-IsCounted q' c')
]
  where
    q' : Queue
    q' = confirm (min n q.next_idx) q

    c' : IsCounted q'
    c' = confirm-IsCounted (min n q.next_idx) q (omega arith) c

-- Append, Next, AckN, Requeue and Close keep the accounts, whatever a write to disk comes to: the byte
-- count is that of the records that wait and never exceeds the limit, and no more are in flight than wait.
pub apply-IsCounted : (o : Operation) (q : Queue) → IsCounted q → IsCounted (apply o q)
unfolding apply requeue close persist_cursor
apply-IsCounted (appends rec ts now w) q c = append-IsCounted rec ts now w q c
apply-IsCounted (takes n) q c = next-IsCounted n q c
apply-IsCounted (confirms n) q c = ack_n-IsCounted n q c
apply-IsCounted requeues q c = record {
  weighed = c.weighed;
  flying = omega arith;
  limited = c.limited;
}
apply-IsCounted closes q c = record {
  weighed = ground (arith, c.weighed);
  flying = ground (arith, c.flying);
  limited = ground (arith, c.limited);
}
