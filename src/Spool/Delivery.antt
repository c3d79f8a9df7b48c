-- ===== src/Spool/Delivery.antt =====
-- What Next of pkg/spool/queue.go delivers: the records that were appended, in their order.
use gametrace.Prelude.{
  append-nil, ℕ, suc, ◌+◌, ◌≤◌, ◌<◌, ◌≡◌, refl, List, [], ◌∷◌, ◌++◌, some, arith, length, take,
  drop, ap, ap₂, sym, ◌∙◌, length-append, length-drop, take-append-drop, drop-drop, drop_eq,
  append_assoc, ℕ_discrete, All,
}
use gametrace.Prelude.Map.{lookup}
use gametrace.Spool.Frame.{header_size, read_length, frame, Entry}
use gametrace.Spool.Recovery.{frames, read_length-frame, length-frame, drop-frame, take-length}
use gametrace.Spool.Queue.{Queue, span_of, read_records, read_run}

-- A record whose length the prefix can count.
abbrev Countable : List ℕ → Type 0
Countable rec = length rec < 4294967296

take_body : (rec tail : List ℕ) → take (length rec) (drop header_size (frame rec ++ tail)) ≡ rec
unfolding frame
take_body rec tail = take-length rec tail

read_one :
    (count : ℕ) (bytes rest rec : List ℕ) (recs : List (List ℕ))
    → read_length bytes ≡ length rec
    → drop (header_size + length rec) bytes ≡ rest
    → header_size + length rec ≤ length bytes
    → take (length rec) (drop header_size bytes) ≡ rec
    → read_records count rest ≡ some recs
    → read_records (suc count) bytes ≡ some (rec ∷ recs)
unfolding read_records
read_one count bytes rest rec recs hl hd hb ht hr =
    let behind : drop (header_size + read_length bytes) bytes ≡ rest =
      ap (λ n. drop (header_size + n) bytes) hl ∙ hd in
    let body : take (read_length bytes) (drop header_size bytes) ≡ rec =
      ap (λ n. take n (drop header_size bytes)) hl ∙ ht in
    ground (arith, hl, hb, hr, behind, body, ap (read_records count) behind)

-- Reading as many records as were framed gives them back.
read_records-frames :
    (recs : List (List ℕ)) (tail : List ℕ)
    → All Countable recs
    → read_records (length recs) (frames recs ++ tail) ≡ some recs
unfolding read_records
read_records-frames [] tail w = refl
read_records-frames (rec ∷ recs) tail w =
    ap (read_records (suc (length recs))) (append_assoc (frame rec) (frames recs) tail)
    ∙ read_one (length recs) (frame rec ++ (frames recs ++ tail)) (frames recs ++ tail) rec recs
        (read_length-frame rec (frames recs ++ tail) w.0) (drop-frame rec (frames recs ++ tail))
        (omega (arith, length-append (frame rec) (frames recs ++ tail), length-frame rec))
        (take_body rec (frames recs ++ tail)) (read_records-frames recs tail w.1)

-- The entry of a record: its place in a file has the record's bytes.
pub record IsStored (file : List ℕ) (e : Entry) (rec : List ℕ) : Type 0 where
  pub sized : e.n ≡ length rec
  pub countable : Countable rec
  pub placed : take (length (frame rec)) (drop e.off file) ≡ frame rec

-- The entries of these records, one behind the other in one file.
abbrev pub AreStored : List ℕ → List Entry → List (List ℕ) → Type 0
AreStored file [] [] = Unit
AreStored file [] (rec ∷ recs) = ⊥
AreStored file (e ∷ es) [] = ⊥
AreStored file (e ∷ es) (rec ∷ recs) = IsStored file e rec × AreStored file es recs

abbrev pub Adjacent : ℕ → List Entry → Type 0
Adjacent off [] = Unit
Adjacent off (e ∷ es) = (e.off ≡ off) × Adjacent (e.off + (header_size + e.n)) es

-- Such entries are a stretch of the file.
stretch :
    (file : List ℕ) (off : ℕ) (es : List Entry) (recs : List (List ℕ))
    → AreStored file es recs
    → Adjacent off es
    → (tail : List ℕ) × (drop off file ≡ frames recs ++ tail)
stretch file off [] [] s a = (drop off file, refl)
stretch file off [] (rec ∷ recs) s a = elim s [ ]
stretch file off (e ∷ es) [] s a = elim s [ ]
stretch file off (e ∷ es) (rec ∷ recs) s a =
    let (tail, rest) = stretch file (e.off + (header_size + e.n)) es recs s.1 a.1 in
    (
      tail,
      drop_eq off e.off file (sym a.0)
          ∙ (sym (take-append-drop (length (frame rec)) (drop e.off file))
              ∙ (ap₂ (λ xs ys. xs ++ ys) s.0.placed
                    (drop-drop e.off (length (frame rec)) file
                      ∙ (drop_eq (e.off + length (frame rec)) (e.off + (header_size + e.n)) file
                            (omega (arith, length-frame rec, s.0.sized))
                          ∙ rest))
                  ∙ sym (append_assoc (frame rec) (frames recs) tail))),
    )

length-frames :
    (file : List ℕ) (es : List Entry) (recs : List (List ℕ))
    → AreStored file es recs
    → (length (frames recs) ≡ span_of es) × (length es ≡ length recs) × All Countable recs
length-frames file [] [] s = (refl, refl, tt)
length-frames file [] (rec ∷ recs) s = elim s [ ]
length-frames file (e ∷ es) [] s = elim s [ ]
length-frames file (e ∷ es) (rec ∷ recs) s =
    let (span, same, all) = length-frames file es recs s.1 in
    (
      omega (arith, span, s.0.sized, length-append (frame rec) (frames recs), length-frame rec),
      omega (arith, same),
      (s.0.countable, all),
    )

-- Next reads back the records of such entries.
pub read_run-frames :
    (head : Entry) (es : List Entry) (q : Queue) (file : List ℕ) (recs : List (List ℕ))
    → lookup ℕ_discrete head.seg q.files ≡ some file
    → AreStored file (head ∷ es) recs
    → Adjacent head.off (head ∷ es)
    → read_run head (head ∷ es) q ≡ some recs
unfolding read_run
read_run-frames head es q file recs h s a =
    let (tail, bytes) = stretch file head.off (head ∷ es) recs s a in
    let (span, same, all) = length-frames file (head ∷ es) recs s in
    let within : head.off + span_of (head ∷ es) ≤ length file =
      omega (
        arith,
        span,
        length-append (frames recs) tail,
        length-drop head.off file,
        ap length bytes,
      ) in
    let cut : take (span_of (head ∷ es)) (drop head.off file) ≡ frames recs =
      ap₂ take (sym span) bytes ∙ take-length (frames recs) tail in
    let read : read_records (length (head ∷ es)) (take (span_of (head ∷ es)) (drop head.off file))
        ≡ some recs =
      ap₂ read_records same (cut ∙ sym (append-nil (frames recs)))
      ∙ read_records-frames recs [] all in
    ground (arith, h, within, read)
