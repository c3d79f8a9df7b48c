-- ===== src/Spool/Writing.antt =====
-- Append of pkg/spool/queue.go on a disk that takes its writes: the record comes to stand at the end.
use gametrace.Prelude.{
  ℕ, zero, suc, ◌+◌, ◌≤◌, ◌<◌, Bool, true, ◌≡◌, refl, List, [], ◌∷◌, ◌++◌, none, some, ◌&&◌, arith,
  length, take, drop, leb, ap, ap₂, sym, ◌∙◌, subst, inl, inr, ℕ_discrete, length-append, drop_eq,
  append-nil, Bool-cases, if_true, if_false,
}
use gametrace.Prelude.Map.{Map, lookup, insert, lookup-insert}
use gametrace.Spool.Frame.{header_size, frame, Entry}
use gametrace.Spool.Recovery.{length-frame, take-length, drop-length}
use gametrace.Spool.Queue.{
  Cursor, Queue, complete, accepted, contents, overwrite, append, enter, rolled, roll_segment,
  write_file, note_seg_record, is_open,
}
use gametrace.Spool.Fifo.{IsHolding}
use gametrace.Spool.Growth.{
  Grown, StoredAll-grow, StoredAll-snoc, Chained-snoc, Chained-later, insert_new, insert_end,
}

-- The write handle stands at the end of the last segment.
pub record IsReady (q : Queue) : Type 0 where
  pub placed : q.wr_pos ≡ some q.wr_cur.offset
  pub file : List ℕ
  pub there : lookup ℕ_discrete q.wr_cur.segment q.files ≡ some file
  pub ended : length file ≡ q.wr_cur.offset
  pub last : (seg : ℕ) → q.wr_cur.segment < seg → lookup ℕ_discrete seg q.files ≡ none

roll-IsHolding :
    (q : Queue) (recs : List (List ℕ))
    → IsReady q
    → IsHolding q recs
    → IsHolding (roll_segment q) recs
unfolding roll_segment
roll-IsHolding q recs r h =
    let clear = r.last (suc q.wr_cur.segment) (omega arith) in
    let empty : contents (suc q.wr_cur.segment) q.files ≡ [] = ground (arith, clear) in
    record {
      stored =
          StoredAll-grow q.files _ q.entries recs
            (subst (λ f. Grown q.files (insert ℕ_discrete (suc q.wr_cur.segment) f q.files))
              (sym empty) (insert_new (suc q.wr_cur.segment) q.files clear))
            h.stored;
      chained = Chained-later q.wr_cur _ q.entries (omega arith) h.chained;
    }

roll-IsReady : (q : Queue) → IsReady q → IsReady (roll_segment q)
unfolding roll_segment
roll-IsReady q r =
    let clear = r.last (suc q.wr_cur.segment) (omega arith) in
    record {
      placed = refl;
      file = [];
      there = ground (
        arith,
        clear,
        lookup-insert ℕ_discrete (suc q.wr_cur.segment) (suc q.wr_cur.segment)
            (contents (suc q.wr_cur.segment) q.files) q.files,
      );
      ended = refl;
      last = λ seg l. ground (
        arith,
        l,
        r.last seg (omega (arith, l)),
        lookup-insert ℕ_discrete (suc q.wr_cur.segment) seg
            (contents (suc q.wr_cur.segment) q.files) q.files,
      );
    }

rolled_both :
    (q : Queue) (recs : List (List ℕ))
    → IsReady q
    → IsHolding q recs
    → IsReady (rolled q) × IsHolding (rolled q) recs
unfolding rolled
rolled_both q recs r h = elim (Bool-cases (leb q.seg_bytes q.wr_cur.offset && is_open q.wr_pos)) [
  | inl y ↦
      subst (λ (p : Queue). IsReady p × IsHolding p recs) (sym (if_true _ _ y))
        (roll-IsReady q r, roll-IsHolding q recs r h)
  | inr n ↦ subst (λ (p : Queue). IsReady p × IsHolding p recs) (sym (if_false _ _ n)) (r, h)
]

-- The queue after a write of these bytes at the end.
abbrev ended_with : List ℕ → List ℕ → Queue → Queue
ended_with buf file q = record q {
  files = insert ℕ_discrete q.wr_cur.segment (file ++ buf) q.files;
  wr_pos = some (q.wr_cur.offset + length buf);
}

drop_past : (n : ℕ) (xs : List ℕ) → length xs ≤ n → drop n xs ≡ []
drop_past zero [] h = refl
drop_past zero (x ∷ xs) h = absurd (omega arith)
drop_past (suc n) [] h = refl
drop_past (suc n) (x ∷ xs) h = drop_past n xs (omega arith)

overwrite_end :
    (pos : ℕ) (buf file : List ℕ) → length file ≡ pos → overwrite pos buf file ≡ file ++ buf
overwrite_end pos buf file h =
    ap₂ (λ xs ys. xs ++ (buf ++ ys)) whole (drop_past (pos + length buf) file (omega (arith, h)))
    ∙ ap (file ++◌) (append-nil buf)
  where
    whole : take pos file ≡ file
    whole = ap₂ take (sym h) (sym (append-nil file)) ∙ take-length file []

write-IsReady :
    (buf : List ℕ) (q : Queue) (r : IsReady q)
    → write_file buf complete q ≡ (true, ended_with buf r.file q)
unfolding write_file
write-IsReady buf q r =
    let held : contents q.wr_cur.segment q.files ≡ r.file = ground (arith, r.there) in
    let put : overwrite q.wr_cur.offset buf (contents q.wr_cur.segment q.files) ≡ r.file ++ buf =
      ap (overwrite q.wr_cur.offset buf) held ∙ overwrite_end q.wr_cur.offset buf r.file r.ended in
    ground (arith, r.placed, put)

module _ (rec : List ℕ) (ts now : ℕ) where
  abbrev record_at : Cursor → Entry
  record_at w = record { seg = w.segment; off = w.offset; n = length rec }

  enter-IsHolding :
      (q : Queue) (recs : List (List ℕ)) (r : IsReady q)
      → length rec < 4294967296
      → IsHolding q recs
      → IsHolding (enter rec ts now (ended_with (frame rec) r.file q)) (recs ++ rec ∷ [])
  unfolding enter note_seg_record
  enter-IsHolding q recs r c h = record {
    stored =
        StoredAll-snoc files q.entries recs (record_at q.wr_cur) rec (r.file ++ frame rec)
          (ground (
            arith,
            lookup-insert ℕ_discrete q.wr_cur.segment q.wr_cur.segment (r.file ++ frame rec)
                q.files,
          ))
          (record { sized = refl; countable = c; placed = at_end })
          (StoredAll-grow q.files files q.entries recs
            (insert_end q.wr_cur.segment q.files r.file (frame rec) r.there) h.stored);
    chained =
        Chained-snoc q.wr_cur
          (record {
            segment = q.wr_cur.segment;
            offset = q.wr_cur.offset + (header_size + length rec);
          })
          (length rec) q.entries (inl (refl, refl)) h.chained;
  }
    where
      files : Map ℕ (List ℕ)
      files = insert ℕ_discrete q.wr_cur.segment (r.file ++ frame rec) q.files

      at_end : take (length (frame rec)) (drop q.wr_cur.offset (r.file ++ frame rec)) ≡ frame rec
      at_end =
          ap (take (length (frame rec))) (
            drop_eq q.wr_cur.offset (length r.file) (r.file ++ frame rec) (sym r.ended)
            ∙ drop-length r.file (frame rec))
          ∙ (ap (take (length (frame rec))) (sym (append-nil (frame rec)))
              ∙ take-length (frame rec) [])

  enter-IsReady :
      (q : Queue) (r : IsReady q) → IsReady (enter rec ts now (ended_with (frame rec) r.file q))
  unfolding enter note_seg_record
  enter-IsReady q r = record {
    placed = ap (λ k. some (q.wr_cur.offset + k)) (length-frame rec);
    file = r.file ++ frame rec;
    there = ground (
      arith,
      lookup-insert ℕ_discrete q.wr_cur.segment q.wr_cur.segment (r.file ++ frame rec) q.files,
    );
    ended = omega (arith, r.ended, length-append r.file (frame rec), length-frame rec);
    last = λ seg l. ground (
      arith,
      l,
      r.last seg l,
      lookup-insert ℕ_discrete q.wr_cur.segment seg (r.file ++ frame rec) q.files,
    );
  }

  append_accepted :
      (q : Queue)
      → (append rec ts now complete q).0 ≡ accepted
      → (append rec ts now complete q).1
        ≡ enter rec ts now (write_file (frame rec) complete (rolled q)).1
  unfolding append
  append_accepted q h = ground (arith, h)

  -- On a queue whose write handle stands at the end of its last segment, a record of fewer than 2 ^ 32
  -- bytes that Append accepts is the last that the queue holds, behind those that it held, and the handle
  -- stands at the end again.
  pub append-IsHolding :
      (q : Queue) (recs : List (List ℕ))
      → (append rec ts now complete q).0 ≡ accepted
      → length rec < 4294967296
      → IsReady q
      → IsHolding q recs
      → IsReady (append rec ts now complete q).1
        × IsHolding (append rec ts now complete q).1 (recs ++ rec ∷ [])
  append-IsHolding q recs a c r h =
      let (ready, holding) = rolled_both q recs r h in
      let shape : (append rec ts now complete q).1
          ≡ enter rec ts now (ended_with (frame rec) ready.file (rolled q)) =
        append_accepted q a
        ∙ ap (λ (p : Bool × Queue). enter rec ts now p.1)
            (write-IsReady (frame rec) (rolled q) ready) in
      subst (λ (p : Queue). IsReady p × IsHolding p (recs ++ rec ∷ [])) (sym shape)
        (enter-IsReady (rolled q) ready, enter-IsHolding (rolled q) recs ready c holding)
