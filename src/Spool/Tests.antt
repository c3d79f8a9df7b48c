-- ===== src/Spool/Tests.antt =====
-- Runs of the disk queue of pkg/spool.
use gametrace.Prelude.{
  ◌≤◌, ◌+◌, length, take, drop, min, ◌-◌, ℕ, false, ◌≡◌, refl, List, [], ◌∷◌, ◌++◌, none, some,
  arith, ℕ_discrete, All, inl, inr,
}
use gametrace.Prelude.Map.{lookup, insert, delete}
use gametrace.Spool.Frame.{frame, Entry, scan_segment, recovered}
use gametrace.Spool.Recovery.{frames, entries_at, Fits, recovered_torn}
use gametrace.Spool.Queue.{
  Queue, complete, short, append, rolled, write_file, enter, note_seg_record, next, next_run,
  read_run, read_records, read_cur, ack_n,
}
use gametrace.Spool.Retention.{enforce_retention, enforce_retention-keeps, seg_end}
use gametrace.Spool.Hazards.{enforce_retention_unmeasured}
use gametrace.Spool.Fifo.{IsHolding, next-IsHolding}
use gametrace.Spool.Writing.{IsReady, append-IsHolding}
use gametrace.Spool.Confirming.{ack_n-IsHolding}
use gametrace.Spool.Counts.{IsCounted, appends, apply, apply-IsCounted}

abbrev two_records : List (List ℕ)
two_records = (7 ∷ 8 ∷ []) ∷ (9 ∷ []) ∷ []

-- A length of three and one of its bytes.
abbrev half_record : List ℕ
half_record = 0 ∷ 0 ∷ 0 ∷ 3 ∷ 5 ∷ []

two_records-Fits : All Fits two_records
two_records-Fits = ((omega arith, omega arith), ((omega arith, omega arith), tt))

recovered_torn_example :
    ((scan_segment 1 0 (frames two_records ++ half_record)).0 ≡ entries_at 1 0 two_records)
    × (recovered 1 0 (frames two_records ++ half_record) ≡ frames two_records)
recovered_torn_example =
    recovered_torn 1 two_records half_record two_records-Fits (omega arith, inr (inl (omega arith)))

-- A queue that was opened in an empty directory, to keep a day of records.
abbrev opened : Queue
opened = record {
  max_bytes = 100;
  seg_bytes = 64;
  entries = [];
  next_idx = 0;
  bytes = 0;
  wr_cur = record { segment = 1; offset = 0 };
  files = (1, []) ∷ [];
  handles = 1 ∷ [];
  wr_pos = some 0;
  since_cursor = 0;
  saved = none;
  dropped = 0;
  closed = false;
  retention = some (record { max_age = 86400000; max_bytes = 0 });
  seg_meta = [];
}

-- One record is written, taken and confirmed.
abbrev drained : Queue
drained = ack_n 1 (next 1 (append (7 ∷ 8 ∷ []) 1000 1000 complete opened).1).1

abbrev waiting : Queue
waiting = (append (7 ∷ 8 ∷ []) 1000 1000 complete opened).1

delivered : (next 1 waiting).0 ≡ some ((7 ∷ 8 ∷ []) ∷ [])
unfolding append rolled write_file enter note_seg_record insert delete lookup frame next next_run
    read_run read_records ℕ_discrete
delivered = refl

opened-IsCounted : IsCounted opened
opened-IsCounted = record { weighed = refl; flying = omega arith; limited = omega arith }

apply-IsCounted_example : IsCounted (apply (appends (7 ∷ 8 ∷ []) 1000 1000 (short 3)) opened)
apply-IsCounted_example =
    apply-IsCounted (appends (7 ∷ 8 ∷ []) 1000 1000 (short 3)) opened opened-IsCounted

abbrev first_entry : Entry
first_entry = record { seg = 1; off = 0; n = 2 }

enforce_retention-keeps_example :
    ((enforce_retention 90000000 (1 ∷ []) waiting).0.entries ≡ waiting.entries)
    × (lookup ℕ_discrete 1 (enforce_retention 90000000 (1 ∷ []) waiting).0.files
        ≡ lookup ℕ_discrete 1 waiting.files)
unfolding append rolled write_file enter note_seg_record insert delete lookup frame read_cur seg_end
    ℕ_discrete
enforce_retention-keeps_example =
    enforce_retention-keeps 90000000 (1 ∷ []) waiting first_entry
      (record { counted = omega arith; behind = inr (refl, omega arith) })

-- The queue after a crash that lost the segment's metadata.
abbrev reopened : Queue
reopened = record opened {
  entries = first_entry ∷ [];
  bytes = 6;
  wr_cur = record { segment = 1; offset = 6 };
  files = (1, 0 ∷ 0 ∷ 0 ∷ 2 ∷ 7 ∷ 8 ∷ []) ∷ [];
  wr_pos = some 6;
  seg_meta = (1, record { first_ms = 1000; last_ms = 1000; packets = 0; bytes = 0 }) ∷ [];
}

enforce_retention_unmeasured_example :
    (lookup ℕ_discrete 1 (enforce_retention 90000000 (1 ∷ []) reopened).0.files ≡ none)
    × ((enforce_retention 90000000 (1 ∷ []) reopened).0.entries ≡ first_entry ∷ [])
unfolding lookup ℕ_discrete
enforce_retention_unmeasured_example =
    enforce_retention_unmeasured 90000000
      (record { first_ms = 1000; last_ms = 1000; packets = 0; bytes = 0 })
      (record { max_age = 86400000; max_bytes = 0 }) first_entry [] reopened refl refl refl refl
      refl (λ e. omega (arith, e)) (omega arith) (omega arith)

opened-IsReady : IsReady opened
unfolding lookup ℕ_discrete
opened-IsReady = record {
  placed = refl;
  file = [];
  there = refl;
  ended = refl;
  last = λ seg l. ground (arith, l);
}

opened-IsHolding : IsHolding opened []
opened-IsHolding = record { stored = tt; chained = tt }

append-IsHolding_example : IsReady waiting × IsHolding waiting ((7 ∷ 8 ∷ []) ∷ [])
unfolding append rolled write_file enter note_seg_record insert delete lookup frame ℕ_discrete
append-IsHolding_example =
    append-IsHolding (7 ∷ 8 ∷ []) 1000 1000 opened [] refl (omega arith) opened-IsReady
      opened-IsHolding

waiting-IsHolding : IsHolding waiting ((7 ∷ 8 ∷ []) ∷ [])
unfolding append rolled write_file enter note_seg_record insert delete lookup frame ℕ_discrete
waiting-IsHolding = record {
  stored = (
    (
      0 ∷ 0 ∷ 0 ∷ 2 ∷ 7 ∷ 8 ∷ [],
      refl,
      record { sized = refl; countable = omega arith; placed = refl },
    ),
    tt,
  );
  chained = (inl (refl, refl), tt);
}

next-IsHolding_example :
    ((next 1 waiting).0 ≡ some (take (length (next_run 1 waiting)) ((7 ∷ 8 ∷ []) ∷ [])))
    × (1 ≤ length (next_run 1 waiting))
    × ((next 1 waiting).1.next_idx ≡ 0 + length (next_run 1 waiting))
    × IsHolding (next 1 waiting).1 ((7 ∷ 8 ∷ []) ∷ [])
unfolding append rolled write_file enter note_seg_record insert delete lookup frame ℕ_discrete
next-IsHolding_example =
    next-IsHolding 1 waiting ((7 ∷ 8 ∷ []) ∷ []) (waiting-IsHolding) (omega arith)

abbrev sending : Queue
sending = (next 1 waiting).1

sending-IsHolding : IsHolding sending ((7 ∷ 8 ∷ []) ∷ [])
unfolding append rolled write_file enter note_seg_record insert delete lookup frame ℕ_discrete next
    next_run read_run read_records
sending-IsHolding = record {
  stored = waiting-IsHolding.stored;
  chained = waiting-IsHolding.chained;
}

ack_n-IsHolding_example :
    IsHolding (ack_n 5 sending) (drop (min 5 sending.next_idx) ((7 ∷ 8 ∷ []) ∷ []))
    × ((ack_n 5 sending).next_idx ≡ sending.next_idx - min 5 sending.next_idx)
ack_n-IsHolding_example = ack_n-IsHolding 5 sending ((7 ∷ 8 ∷ []) ∷ []) sending-IsHolding
