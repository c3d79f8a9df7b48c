-- ===== src/Spool/Fifo.antt =====
-- The queue of pkg/spool/queue.go as a list of records: Append puts one at the end, Next gives the first
-- ones that are not in flight.
use gametrace.Prelude.{
  length-drop, length-take, ℕ, zero, suc, ◌+◌, ◌-◌, ◌≤◌, ◌<◌, ◌≡◌, refl, List, [], ◌∷◌, some, arith,
  length, take, drop, ap, sym, ◌∙◌, subst, ◌⊎◌, inl, inr, ℕ_discrete,
}
use gametrace.Prelude.Map.{Map, lookup}
use gametrace.Spool.Frame.{header_size, Entry}
use gametrace.Spool.Queue.{Cursor, Queue, run_length, read_run, at_least_one, next_run, next}
use gametrace.Spool.Delivery.{IsStored, AreStored, Adjacent, read_run-frames}

-- Each entry has its record's bytes in the file of its segment.
abbrev pub StoredAll : Map ℕ (List ℕ) → List Entry → List (List ℕ) → Type 0
StoredAll files [] [] = Unit
StoredAll files [] (rec ∷ recs) = ⊥
StoredAll files (e ∷ es) [] = ⊥
StoredAll files (e ∷ es) (rec ∷ recs) =
    ((file : List ℕ) × (lookup ℕ_discrete e.seg files ≡ some file) × IsStored file e rec)
    × StoredAll files es recs

abbrev pub start_of : Cursor → List Entry → Cursor
start_of w [] = w
start_of w (e ∷ es) = record { segment = e.seg; offset = e.off }

-- The place after an entry: right behind it, or in a later segment.
abbrev pub Follows : Entry → Cursor → Type 0
Follows e c = ((e.seg ≡ c.segment) × (e.off + (header_size + e.n) ≡ c.offset)) ⊎ (e.seg < c.segment)

abbrev pub Chained : Cursor → List Entry → Type 0
Chained w [] = Unit
Chained w (e ∷ es) = Follows e (start_of w es) × Chained w es

pub StoredAll-drop :
    (k : ℕ) (files : Map ℕ (List ℕ)) (es : List Entry) (recs : List (List ℕ))
    → StoredAll files es recs
    → StoredAll files (drop k es) (drop k recs)
StoredAll-drop zero files es recs s = s
StoredAll-drop (suc k) files [] [] s = tt
StoredAll-drop (suc k) files [] (rec ∷ recs) s = elim s [ ]
StoredAll-drop (suc k) files (e ∷ es) [] s = elim s [ ]
StoredAll-drop (suc k) files (e ∷ es) (rec ∷ recs) s = StoredAll-drop k files es recs s.1

pub Chained-drop : (k : ℕ) (w : Cursor) (es : List Entry) → Chained w es → Chained w (drop k es)
Chained-drop zero w es c = c
Chained-drop (suc k) w [] c = tt
Chained-drop (suc k) w (e ∷ es) c = Chained-drop k w es c.1

run_length-take : (seg n : ℕ) (es : List Entry) → run_length seg (take n es) ≤ run_length seg es
run_length-take seg zero es = omega arith
run_length-take seg (suc n) [] = omega arith
run_length-take seg (suc n) (e ∷ es) = ground (arith, run_length-take seg n es)

-- The first entry, if it is of the segment, is at the offset.
abbrev Begins : ℕ → ℕ → List Entry → Type 0
Begins seg off [] = Unit
Begins seg off (e ∷ es) = e.seg ≡ seg → e.off ≡ off

behind_next :
    (w : Cursor) (seg : ℕ) (e : Entry) (es : List Entry)
    → e.seg ≡ seg
    → Follows e (start_of w es)
    → Begins seg (e.off + (header_size + e.n)) es
behind_next w seg e [] h f = tt
behind_next w seg e (e' ∷ es) h (inl (same, off)) = λ p. sym off
behind_next w seg e (e' ∷ es) h (inr lt) = λ p. absurd (omega (arith, h, p, lt))

run_stored :
    (w : Cursor) (files : Map ℕ (List ℕ)) (seg off m : ℕ) (file : List ℕ) (es : List Entry)
    (recs : List (List ℕ))
    → lookup ℕ_discrete seg files ≡ some file
    → m ≤ run_length seg es
    → StoredAll files es recs
    → Chained w es
    → Begins seg off es
    → AreStored file (take m es) (take m recs) × Adjacent off (take m es)
run_stored w files seg off zero file es recs h l s c b = (tt, tt)
run_stored w files seg off (suc m) file [] [] h l s c b = (tt, tt)
run_stored w files seg off (suc m) file [] (rec ∷ recs) h l s c b = elim s [ ]
run_stored w files seg off (suc m) file (e ∷ es) [] h l s c b = elim s [ ]
run_stored w files seg off (suc m) file (e ∷ es) (rec ∷ recs) h l s c b =
    let own : e.seg ≡ seg = ground (arith, l) in
    let (rest, near) =
      run_stored w files seg (e.off + (header_size + e.n)) m file es recs h (ground (arith, l)) s.1
        c.1 (behind_next w seg e es own c.0) in
    let (file', there, stored) = s.0 in
    let same : file' ≡ file = some_eq (sym there ∙ (ap (λ x. lookup ℕ_discrete x files) own ∙ h)) in
    ((subst (λ f. IsStored f e rec) same stored, rest), (b own, near))
  where
    some_eq : {x y : List ℕ} → some x ≡ some y → x ≡ y
    some_eq p = cc

-- The queue holds these records, in this order.
pub record IsHolding (q : Queue) (recs : List (List ℕ)) : Type 0 where
  pub stored : StoredAll q.files q.entries recs
  pub chained : Chained q.wr_cur q.entries

run_positive :
    (n : ℕ) (e : Entry) (es : List Entry) → 1 ≤ run_length e.seg (take (at_least_one n) (e ∷ es))
run_positive zero e es = ground arith
run_positive (suc n) e es = ground arith

-- What Next reads where records wait that are not in flight.
reads :
    (n : ℕ) (w : Cursor) (q : Queue) (e : Entry) (es : List Entry) (recs : List (List ℕ)) (m : ℕ)
    → 1 ≤ m
    → m ≤ run_length e.seg (e ∷ es)
    → StoredAll q.files (e ∷ es) recs
    → Chained w (e ∷ es)
    → read_run e (take m (e ∷ es)) q ≡ some (take m recs)
reads n w q e es recs zero p l s c = absurd (omega arith)
reads n w q e es [] (suc m) p l s c = elim s [ ]
reads n w q e es (rec ∷ recs) (suc m) p l s c =
    let (file, there, own) = s.0 in
    let (stored, near) =
      run_stored w q.files e.seg e.off (suc m) file (e ∷ es) (rec ∷ recs) there l s c (λ h. refl) in
    read_run-frames e (take m es) q file (rec ∷ take m recs) there stored near

abbrev run_of : ℕ → List Entry → List Entry
run_of n avail = elim avail [
  | [] ↦ []
  | head ∷ rest ↦ take (run_length head.seg (take (at_least_one n) (head ∷ rest))) (head ∷ rest)
]

take_suc : (m : ℕ) (e : Entry) (es : List Entry) → 1 ≤ m → take m (e ∷ es) ≡ e ∷ take (m - 1) es
take_suc zero e es h = absurd (omega arith)
take_suc (suc m) e es h = ap (λ k. e ∷ take k es) (omega arith)

run_length-le : (seg : ℕ) (es : List Entry) → run_length seg es ≤ length es
run_length-le seg [] = omega arith
run_length-le seg (e ∷ es) = ground (arith, run_length-le seg es)

first_of : (es : List Entry) → 1 ≤ length es → (e : Entry) × (rest : List Entry) × (es ≡ e ∷ rest)
first_of [] h = absurd (omega arith)
first_of (e ∷ es) h = (e, es, refl)

next_reads :
    (n : ℕ) (q : Queue) (head : Entry) (rest : List Entry) (recs : List (List ℕ))
    → next_run n q ≡ head ∷ rest
    → read_run head (head ∷ rest) q ≡ some recs
    → ((next n q).0 ≡ some recs)
      × ((next n q).1.next_idx ≡ q.next_idx + length (head ∷ rest))
      × ((next n q).1.files ≡ q.files)
      × ((next n q).1.entries ≡ q.entries)
      × ((next n q).1.wr_cur ≡ q.wr_cur)
unfolding next
next_reads n q head rest recs h r = ground (arith, h, r)

Holding-same :
    (p q : Queue) (recs : List (List ℕ))
    → p.files ≡ q.files
    → p.entries ≡ q.entries
    → p.wr_cur ≡ q.wr_cur
    → IsHolding q recs
    → IsHolding p recs
Holding-same p q recs f e w h = record {
  stored =
      subst (λ m. StoredAll m p.entries recs) (sym f)
        (subst (λ es. StoredAll q.files es recs) (sym e) h.stored);
  chained = subst (λ c. Chained c p.entries) (sym w) (subst (Chained q.wr_cur) (sym e) h.chained);
}

next_run-shape :
    (n : ℕ) (q : Queue) (e : Entry) (es : List Entry)
    → drop q.next_idx q.entries ≡ e ∷ es
    → next_run n q ≡ take (run_length e.seg (take (at_least_one n) (e ∷ es))) (e ∷ es)
unfolding next_run
next_run-shape n q e es h = ap (run_of n) h

-- Where a record is not in flight, Next reads its run, of at least one record, back as the first records
-- that are not in flight, and has them in flight from then on; the queue holds what it held.
pub next-IsHolding :
    (n : ℕ) (q : Queue) (recs : List (List ℕ))
    → IsHolding q recs
    → q.next_idx < length q.entries
    → ((next n q).0 ≡ some (take (length (next_run n q)) (drop q.next_idx recs)))
      × (1 ≤ length (next_run n q))
      × ((next n q).1.next_idx ≡ q.next_idx + length (next_run n q))
      × IsHolding (next n q).1 recs
next-IsHolding n q recs h w =
    let (e, es, shape) =
      first_of (drop q.next_idx q.entries) (omega (arith, length-drop q.next_idx q.entries, w)) in
    let m : ℕ = run_length e.seg (take (at_least_one n) (e ∷ es)) in
    let some_run : 1 ≤ m = run_positive n e es in
    let within : m ≤ run_length e.seg (e ∷ es) = run_length-take e.seg (at_least_one n) (e ∷ es) in
    let run : next_run n q ≡ e ∷ take (m - 1) es =
      next_run-shape n q e es shape ∙ take_suc m e es some_run in
    let size : length (next_run n q) ≡ m =
      ap length (next_run-shape n q e es shape)
      ∙ (length-take m (e ∷ es) ∙ omega (arith, within, run_length-le e.seg (e ∷ es))) in
    let got : read_run e (e ∷ take (m - 1) es) q ≡ some (take m (drop q.next_idx recs)) =
      ap (λ xs. read_run e xs q) (sym (take_suc m e es some_run))
      ∙ reads n q.wr_cur q e es (drop q.next_idx recs) m some_run within
          (subst (λ xs. StoredAll q.files xs (drop q.next_idx recs)) shape
            (StoredAll-drop q.next_idx q.files q.entries recs h.stored))
          (subst (Chained q.wr_cur) shape (Chained-drop q.next_idx q.wr_cur q.entries h.chained)) in
    let (given, idx, files, entries, cur) =
      next_reads n q e (take (m - 1) es) (take m (drop q.next_idx recs)) run got in
    (
      given ∙ ap (λ k. some (take k (drop q.next_idx recs))) (sym size),
      omega (arith, size, some_run),
      idx ∙ ap (λ xs. q.next_idx + length xs) (sym run),
      Holding-same (next n q).1 q recs files entries cur h,
    )
