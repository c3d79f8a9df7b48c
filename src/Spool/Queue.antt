-- ===== src/Spool/Queue.antt =====
-- Queue of pkg/spool/queue.go and retention.go, with the directory's files as bytes. Packets are the
-- bytes that proto.Marshal makes of them. The mutex makes an operation one step; fsync and the files
-- with metadata, which only matter after a crash, are left out.
use gametrace.Prelude.{
  ℕ, zero, suc, ◌+◌, ◌-◌, Bool, true, false, not, ◌&&◌, ◌||◌, List, [], ◌∷◌, ◌++◌, Option, none,
  some, length, drop, take, select, ltb, leb, ◌==◌, min, if◌then◌else◌, ℕ_discrete,
}
use gametrace.Prelude.Map.{Map, lookup, insert, delete}
use gametrace.Spool.Frame.{header_size, read_length, frame, Entry}

pub record Cursor : Type 0 where
  pub segment : ℕ
  pub offset : ℕ

-- segInfo
pub record SegInfo : Type 0 where
  pub first_ms : ℕ
  pub last_ms : ℕ
  pub packets : ℕ
  pub bytes : ℕ

-- The limits of a Retention in milliseconds and bytes, 0 for none.
pub record Retention : Type 0 where
  pub max_age : ℕ
  pub max_bytes : ℕ

-- `files` are the bytes of the segments on disk, `handles` the segments that are open, and `wr_pos` the
-- position of the write handle, `none` where that handle has been closed.
pub record Queue : Type 0 where
  pub max_bytes : ℕ
  pub seg_bytes : ℕ
  pub entries : List Entry
  pub next_idx : ℕ
  pub bytes : ℕ
  pub wr_cur : Cursor
  pub files : Map ℕ (List ℕ)
  pub handles : List ℕ
  pub wr_pos : Option ℕ
  pub since_cursor : ℕ
  pub saved : Option Cursor
  pub dropped : ℕ
  pub closed : Bool
  pub retention : Option Retention
  pub seg_meta : Map ℕ SegInfo

-- What a write to disk comes to: all of it, or an error after some bytes.
pub data Write : Type 0 where
  complete : Write
  short : ℕ → Write

pub data Appended : Type 0 where
  accepted full is_closed write_failed : Appended

abbrev pub cursor_sync_every : ℕ
cursor_sync_every = 512

abbrev pub contents : ℕ → Map ℕ (List ℕ) → List ℕ
contents seg files = elim (lookup ℕ_discrete seg files) [ none ↦ [] | some file ↦ file ]

abbrev pub overwrite : ℕ → List ℕ → List ℕ → List ℕ
overwrite pos buf file = take pos file ++ (buf ++ drop (pos + length buf) file)

abbrev pub member : ℕ → List ℕ → Bool
member x [] = false
member x (y ∷ ys) = y == x || member x ys

abbrev pub with_handle : ℕ → List ℕ → List ℕ
with_handle seg hs = if member seg hs then hs else seg ∷ hs

-- rollSegment: openSegment keeps the bytes of a file that is there.
unfoldable pub roll_segment : Queue → Queue
roll_segment q =
    let seg = suc q.wr_cur.segment in
    record q {
      files = insert ℕ_discrete seg (contents seg q.files) q.files;
      handles = with_handle seg q.handles;
      wr_cur = record { segment = seg; offset = 0 };
      wr_pos = some 0;
    }

abbrev pub is_open : Option ℕ → Bool
is_open none = false
is_open (some pos) = true

-- The call of rollSegment in Append. On a handle that has been closed the sync that it begins with is an
-- error: nothing is rolled, and Append fails as the write to that handle does.
unfoldable pub rolled : Queue → Queue
rolled q = if leb q.seg_bytes q.wr_cur.offset && is_open q.wr_pos then roll_segment q else q

-- The bytes of a write that reach the file.
abbrev pub reached : Write → List ℕ → List ℕ
reached complete buf = buf
reached (short k) buf = take k buf

abbrev pub is_complete : Write → Bool
is_complete complete = true
is_complete (short k) = false

-- wrFile.Write: the bytes that reach the file, and whether it was all of them.
unfoldable pub write_file : List ℕ → Write → Queue → Bool × Queue
write_file buf w q = elim q.wr_pos [
  | none ↦ (false, q)
  | some pos ↦ (
    is_complete w,
    record q {
      files =
          insert ℕ_discrete q.wr_cur.segment
            (overwrite pos (reached w buf) (contents q.wr_cur.segment q.files)) q.files;
      wr_pos = some (pos + length (reached w buf));
    },
  )
]

abbrev pub no_info : SegInfo
no_info = record { first_ms = 0; last_ms = 0; packets = 0; bytes = 0 }

abbrev pub info_of : ℕ → Map ℕ SegInfo → SegInfo
info_of seg m = elim (lookup ℕ_discrete seg m) [ none ↦ no_info | some i ↦ i ]

abbrev pub noted : ℕ → ℕ → SegInfo → SegInfo
noted ts total i = record {
  first_ms = if i.first_ms == 0 || ltb ts i.first_ms then ts else i.first_ms;
  last_ms = if ltb i.last_ms ts then ts else i.last_ms;
  packets = suc i.packets;
  bytes = i.bytes + total;
}

-- noteSegRecord, with the packet's time or else the clock's.
unfoldable pub note_seg_record : ℕ → ℕ → ℕ → ℕ → Queue → Queue
note_seg_record seg ts now total q = record q {
  seg_meta =
      insert ℕ_discrete seg (noted (if ts == 0 then now else ts) total (info_of seg q.seg_meta))
        q.seg_meta;
}

-- The part of Append behind a write that succeeded.
unfoldable pub enter : List ℕ → ℕ → ℕ → Queue → Queue
enter rec ts now q =
    let total = header_size + length rec in
    let q' = note_seg_record q.wr_cur.segment ts now total q in
    record q' {
      entries =
          q.entries
          ++ record { seg = q.wr_cur.segment; off = q.wr_cur.offset; n = length rec } ∷ [];
      wr_cur = record { segment = q.wr_cur.segment; offset = q.wr_cur.offset + total };
      bytes = q.bytes + total;
    }

abbrev pub counted : Queue → Queue
counted q = record q { dropped = suc q.dropped }

unfoldable pub append : List ℕ → ℕ → ℕ → Write → Queue → Appended × Queue
append rec ts now w q =
    let (ok, q') = write_file (frame rec) w (rolled q) in
    if ltb q.max_bytes (length rec)
    then (full, q)
    else if q.closed
    then (is_closed, q)
    else if ltb q.max_bytes (q.bytes + (header_size + length rec))
    then (full, counted q)
    else if ok
    then (accepted, enter rec ts now q')
    else (write_failed, counted q')

-- The records of the same segment at the head, and the bytes that they take.
abbrev pub run_length : ℕ → List Entry → ℕ
run_length seg [] = 0
run_length seg (e ∷ es) = let rest = run_length seg es in if e.seg == seg then suc rest else 0

abbrev pub span_of : List Entry → ℕ
span_of [] = 0
span_of (e ∷ es) = header_size + e.n + span_of es

-- The loop of Next over the bytes that it has read; `none` is a slice out of range.
unfoldable pub read_records : ℕ → List ℕ → Option (List (List ℕ))
read_records zero buf = some []
read_records (suc count) buf =
    let size = read_length buf in
    let rest = read_records count (drop (header_size + size) buf) in
    if ltb (length buf) (header_size + size)
    then none
    else elim rest [ none ↦ none | some recs ↦ some (take size (drop header_size buf) ∷ recs) ]

-- Next for the records that begin with `head`: what it reads, `none` on an error.
unfoldable pub read_run : Entry → List Entry → Queue → Option (List (List ℕ))
read_run head run q = elim (lookup ℕ_discrete head.seg q.files) [
  | none ↦ none
  | some file ↦
      if ltb (length file) (head.off + span_of run)
      then none
      else read_records (length run) (take (span_of run) (drop head.off file))
]

abbrev pub at_least_one : ℕ → ℕ
at_least_one n = if n == 0 then 1 else n

-- The entries that Next looks at: the first of those not in flight, as far as they share a segment.
unfoldable pub next_run : ℕ → Queue → List Entry
next_run n q =
    let avail = drop q.next_idx q.entries in
    elim avail [
      | [] ↦ []
      | head ∷ rest ↦ take (run_length head.seg (take (at_least_one n) (head ∷ rest))) (head ∷ rest)
    ]

unfoldable pub next : ℕ → Queue → Option (List (List ℕ)) × Queue
next n q = elim (next_run n q) [
  | [] ↦ (some [], q)
  | head ∷ rest ↦
      let opened = record q { handles = with_handle head.seg q.handles } in
      elim (read_run head (head ∷ rest) q) [
        | none ↦ (none, opened)
        | some recs ↦ (some recs, record opened { next_idx = q.next_idx + length (head ∷ rest) })
      ]
]

-- readCurLocked
unfoldable pub read_cur : Queue → Cursor
read_cur q = elim q.entries [ [] ↦ q.wr_cur | e ∷ es ↦ record { segment = e.seg; offset = e.off } ]

-- persistCursorLocked, on a disk that takes the file.
unfoldable pub persist_cursor : Queue → Queue
persist_cursor q = record q { saved = some (read_cur q); since_cursor = 0 }

-- dropSegment; the handle that is closed may be the one that is written to.
unfoldable pub drop_segment : ℕ → Queue → Queue
drop_segment seg q = record q {
  handles = select (λ h. not (h == seg)) q.handles;
  files = delete ℕ_discrete seg q.files;
  seg_meta = delete ℕ_discrete seg q.seg_meta;
  wr_pos = if q.wr_cur.segment == seg then none else q.wr_pos;
}

unfoldable pub drop_before : ℕ → List ℕ → Queue → Queue
drop_before head [] q = q
drop_before head (seg ∷ segs) q =
    drop_before head segs (if ltb seg head then drop_segment seg q else q)

-- cleanupLocked
unfoldable pub cleanup : Queue → Queue
cleanup q = elim q.retention [ some r ↦ q | none ↦ drop_before (read_cur q).segment q.handles q ]

-- The part of AckN that changes the queue in memory.
unfoldable pub confirm : ℕ → Queue → Queue
confirm k q = record q {
  bytes = q.bytes - span_of (take k q.entries);
  entries = drop k q.entries;
  next_idx = q.next_idx - k;
  since_cursor = q.since_cursor + k;
}

unfoldable pub ack_n : ℕ → Queue → Queue
ack_n n q =
    let k = min n q.next_idx in
    let q' = confirm k q in
    if k == 0
    then q
    else cleanup (if leb cursor_sync_every q'.since_cursor then persist_cursor q' else q')

unfoldable pub requeue : Queue → Queue
requeue q = record q { next_idx = 0 }

-- Close
unfoldable pub close : Queue → Queue
close q =
    if q.closed then q else record (persist_cursor q) { closed = true; handles = []; wr_pos = none }

-- EnableRetention
unfoldable pub enable_retention : Option Retention → Queue → Queue
enable_retention r q = record q { retention = r }
