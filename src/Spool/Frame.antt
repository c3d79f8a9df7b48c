-- ===== src/Spool/Frame.antt =====
-- Records in a segment file of pkg/spool/queue.go: a length of four bytes, the high one first, and the
-- bytes of the record.
use gametrace.Prelude.{
  ℕ, zero, suc, ◌+◌, ◌*◌, ◌/◌, ◌%◌, Bool, true, false, List, [], ◌∷◌, ◌++◌, length, drop, take, ltb,
  leb, ◌==◌, if◌then◌else◌,
}

abbrev pub header_size : ℕ
header_size = 4

-- binary.BigEndian.AppendUint32 of uint32(n)
abbrev pub length_prefix : ℕ → List ℕ
length_prefix n = n / 16777216 % 256 ∷ n / 65536 % 256 ∷ n / 256 % 256 ∷ n % 256 ∷ []

-- binary.BigEndian.Uint32
abbrev pub read_length : List ℕ → ℕ
read_length (a ∷ b ∷ c ∷ d ∷ rest) = a * 16777216 + b * 65536 + c * 256 + d
read_length _ = 0

-- What writeRecord puts in the file.
unfoldable pub frame : List ℕ → List ℕ
frame rec = length_prefix (length rec) ++ rec

pub record Entry : Type 0 where
  pub seg : ℕ
  pub off : ℕ
  pub n : ℕ

pub record ScanStop : Type 0 where
  pub offset : ℕ
  pub at_eof : Bool

-- The loop of scanSegment on the bytes behind `off`: the entries that it appends, and where it stops. A
-- record takes at least one byte, so as much fuel as there are bytes is enough.
unfoldable pub scan_loop : ℕ → ℕ → ℕ → List ℕ → List Entry × ScanStop
scan_loop zero seg off bytes = ([], record { offset = off; at_eof = true })
scan_loop (suc fuel) seg off bytes =
    let n = read_length bytes in
    let (entries, stop) =
      scan_loop fuel seg (off + (header_size + n)) (drop (header_size + n) bytes) in
    if ltb (length bytes) header_size
    then ([], record { offset = off; at_eof = length bytes == 0 })
    else if n == 0
    then ([], record { offset = off; at_eof = false })
    else if ltb (length bytes) (header_size + n)
    then ([], record { offset = off; at_eof = false })
    else (record { seg = seg; off = off; n = n } ∷ entries, stop)

-- scanSegment, from `off` in a file of these bytes.
unfoldable pub scan_segment : ℕ → ℕ → List ℕ → List Entry × ScanStop
scan_segment seg off file =
    if leb (length file) off
    then ([], record { offset = length file; at_eof = true })
    else scan_loop (suc (length file)) seg off (drop off file)

-- f.Truncate where a record is torn.
unfoldable pub recovered : ℕ → ℕ → List ℕ → List ℕ
recovered seg off file =
    let (entries, stop) = scan_segment seg off file in
    if stop.at_eof then file else take stop.offset file
