-- ===== src/Spool/Recovery.antt =====
-- Recovery of a segment of pkg/spool/queue.go: complete records are found again, and a torn tail goes.
use gametrace.Prelude.{
  ℕ, zero, suc, ◌+◌, ◌<◌, ◌≤◌, ◌⊎◌, Bool, true, false, ◌≡◌, refl, List, [], ◌∷◌, ◌++◌, length, drop,
  take, if◌then◌else◌, arith, All, ap, sym, ◌∙◌, length-append, append_assoc, append-nil,
}
use gametrace.Spool.Frame.{
  header_size, read_length, frame, Entry, ScanStop, scan_loop, scan_segment, recovered,
}

-- The contents of a file with these records, and their entries.
abbrev pub frames : List (List ℕ) → List ℕ
frames [] = []
frames (rec ∷ recs) = frame rec ++ frames recs

abbrev pub entries_at : ℕ → ℕ → List (List ℕ) → List Entry
entries_at seg off [] = []
entries_at seg off (rec ∷ recs) =
    record { seg = seg; off = off; n = length rec }
    ∷ entries_at seg (off + (header_size + length rec)) recs

-- A record that the length prefix can count, and not an empty one.
abbrev pub Fits : List ℕ → Type 0
Fits rec = (1 ≤ length rec) × (length rec < 4294967296)

pub read_length-frame :
    (rec tail : List ℕ) → length rec < 4294967296 → read_length (frame rec ++ tail) ≡ length rec
unfolding frame
read_length-frame rec tail h = omega (arith, h)

pub length-frame : (rec : List ℕ) → length (frame rec) ≡ header_size + length rec
unfolding frame
length-frame rec = omega arith

pub drop-length : (xs ys : List ℕ) → drop (length xs) (xs ++ ys) ≡ ys
drop-length [] ys = refl
drop-length (x ∷ xs) ys = drop-length xs ys

pub take-length : (xs ys : List ℕ) → take (length xs) (xs ++ ys) ≡ xs
take-length [] ys = refl
take-length (x ∷ xs) ys = ap (◌∷◌ x) (take-length xs ys)

pub drop-frame : (rec tail : List ℕ) → drop (header_size + length rec) (frame rec ++ tail) ≡ tail
drop-frame rec tail =
    ap (λ n. drop n (frame rec ++ tail)) (sym (length-frame rec)) ∙ drop-length (frame rec) tail

-- Bytes that are no complete record: too few for a length or for the record that it announces, or a
-- length of zero, as zeroed blocks have it.
abbrev pub IsTorn : List ℕ → Type 0
IsTorn tail =
    (1 ≤ length tail)
    × ((length tail < header_size)
        ⊎ ((length tail < header_size + read_length tail) ⊎ (read_length tail ≡ 0)))

scan_loop-torn :
    (fuel seg off : ℕ) (tail : List ℕ)
    → length tail < fuel
    → IsTorn tail
    → scan_loop fuel seg off tail ≡ ([], record { offset = off; at_eof = false })
unfolding scan_loop
scan_loop-torn zero seg off tail f t = absurd (omega arith)
scan_loop-torn (suc fuel) seg off tail f t = ground arith

scan_loop-end :
    (fuel seg off : ℕ) → scan_loop fuel seg off [] ≡ ([], record { offset = off; at_eof = true })
unfolding scan_loop
scan_loop-end zero seg off = refl
scan_loop-end (suc fuel) seg off = refl

-- One complete record is one entry, and the loop goes on behind it.
scan_loop-frame :
    (fuel seg off : ℕ) (rec tail : List ℕ)
    → Fits rec
    → scan_loop (suc fuel) seg off (frame rec ++ tail) ≡ (
      record { seg = seg; off = off; n = length rec }
          ∷ (scan_loop fuel seg (off + (header_size + length rec)) tail).0,
      (scan_loop fuel seg (off + (header_size + length rec)) tail).1,
    )
unfolding scan_loop
scan_loop-frame fuel seg off rec tail fits = ground (
  arith,
  read_length-frame rec tail fits.1,
  length-append (frame rec) tail,
  length-frame rec,
  drop-frame rec tail,
)

abbrev after : ℕ → List (List ℕ) → ℕ
after off recs = off + length (frames recs)

abbrev found : List Entry → ℕ → Bool → List Entry × ScanStop
found entries o stop = (entries, record { offset = o; at_eof = stop })

abbrev extend : Entry → List Entry × ScanStop → List Entry × ScanStop
extend e q = (e ∷ q.0, q.1)

scan_loop-frames :
    (fuel seg off : ℕ) (recs : List (List ℕ)) (tail : List ℕ) (stop : Bool)
    → length (frames recs ++ tail) < fuel
    → All Fits recs
    → ((k o : ℕ)
        → length tail < k
        → scan_loop k seg o tail ≡ ([], record { offset = o; at_eof = stop }))
    → scan_loop fuel seg off (frames recs ++ tail)
      ≡ (entries_at seg off recs, record { offset = after off recs; at_eof = stop })
scan_loop-frames fuel seg off [] tail stop f w h =
    h fuel off f ∙ ap (λ o. found [] o stop) (omega arith)
scan_loop-frames zero seg off (rec ∷ recs) tail stop f w h = absurd (omega arith)
scan_loop-frames (suc fuel) seg off (rec ∷ recs) tail stop f w h =
    let next : ℕ = off + (header_size + length rec) in
    let rest =
      scan_loop-frames fuel seg next recs tail stop
        (omega (
          arith,
          f,
          length-append (frame rec ++ frames recs) tail,
          length-append (frame rec) (frames recs),
          length-append (frames recs) tail,
          length-frame rec,
        ))
        w.1 h in
    ap (scan_loop (suc fuel) seg off) (append_assoc (frame rec) (frames recs) tail)
    ∙ (scan_loop-frame fuel seg off rec (frames recs ++ tail) w.0
        ∙ (ap (extend (record { seg = seg; off = off; n = length rec })) rest
            ∙ ap
                (λ o.
                  found (record { seg = seg; off = off; n = length rec } ∷ entries_at seg next recs)
                    o stop)
                (omega (arith, length-append (frame rec) (frames recs), length-frame rec))))

scan_segment-open :
    (seg : ℕ) (file : List ℕ)
    → 1 ≤ length file
    → scan_segment seg 0 file ≡ scan_loop (suc (length file)) seg 0 file
unfolding scan_segment
scan_segment-open seg file h = ground arith

-- A segment of complete records is read back: one entry for each, and the scan ends at the end.
pub scan_segment-frames :
    (seg : ℕ) (recs : List (List ℕ))
    → All Fits recs
    → scan_segment seg 0 (frames recs)
      ≡ (entries_at seg 0 recs, record { offset = length (frames recs); at_eof = true })
unfolding scan_segment
scan_segment-frames seg [] w = refl
scan_segment-frames seg (rec ∷ recs) w =
    let all : List (List ℕ) = rec ∷ recs in
    scan_segment-open seg (frames all)
      (omega (arith, length-append (frame rec) (frames recs), length-frame rec))
    ∙ (ap (scan_loop (suc (length (frames all))) seg 0) (sym (append-nil (frames all)))
        ∙ (scan_loop-frames (suc (length (frames all))) seg 0 all [] true
              (omega (arith, length-append (frames all) [])) w (λ k o h. scan_loop-end k seg o)
            ∙ ap (λ o. found (entries_at seg 0 all) o true) (omega arith)))

scan_segment_torn :
    (seg : ℕ) (recs : List (List ℕ)) (tail : List ℕ)
    → All Fits recs
    → IsTorn tail
    → scan_segment seg 0 (frames recs ++ tail)
      ≡ (entries_at seg 0 recs, record { offset = length (frames recs); at_eof = false })
scan_segment_torn seg recs tail w t =
    let file : List ℕ = frames recs ++ tail in
    scan_segment-open seg file (omega (arith, length-append (frames recs) tail, t.0))
    ∙ (scan_loop-frames (suc (length file)) seg 0 recs tail false (omega arith) w
          (λ k o h. scan_loop-torn k seg o tail h t)
        ∙ ap (λ o. found (entries_at seg 0 recs) o false) (omega arith))

-- What a crash leaves behind complete records, none of them empty, is cut off, whatever bytes it is of that
-- are no complete record: recovery gives the file of the complete records, and finds them all.
pub recovered_torn :
    (seg : ℕ) (recs : List (List ℕ)) (tail : List ℕ)
    → All Fits recs
    → IsTorn tail
    → ((scan_segment seg 0 (frames recs ++ tail)).0 ≡ entries_at seg 0 recs)
      × (recovered seg 0 (frames recs ++ tail) ≡ frames recs)
unfolding recovered
recovered_torn seg recs tail w t =
    let s = scan_segment_torn seg recs tail w t in
    (
      ap (λ (q : List Entry × ScanStop). q.0) s,
      ap
            (λ (q : List Entry × ScanStop).
              if q.1.at_eof then frames recs ++ tail else take q.1.offset (frames recs ++ tail))
            s
          ∙ take-length (frames recs) tail,
    )
