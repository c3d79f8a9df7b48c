-- ===== src/Spool/Hazards.antt =====
-- Where the retention of pkg/spool/retention.go does not keep its promise.
use gametrace.Prelude.{
  ℕ, ◌+◌, ◌≤◌, ◌<◌, false, ◌≡◌, ◌≢◌, List, [], ◌∷◌, none, some, arith, length, ℕ_discrete,
}
use gametrace.Prelude.Map.{lookup, lookup-delete}
use gametrace.Spool.Frame.{header_size, Entry}
use gametrace.Spool.Queue.{
  SegInfo, Retention, Queue, read_cur, drop_segment, Write, write_failed, rolled, write_file,
  append,
}
use gametrace.Spool.Retention.{seg_end, is_confirmed, sweep_step, sweep, enforce_retention}

-- Metadata that was lost in a crash counts no bytes of its segment. Then a segment that is older than the
-- window is removed although the first record that waits to be delivered is in it.
pub enforce_retention_unmeasured :
    (now : ℕ) (i : SegInfo) (r : Retention) (e : Entry) (es : List Entry) (q : Queue)
    → q.retention ≡ some r
    → q.closed ≡ false
    → q.entries ≡ e ∷ es
    → lookup ℕ_discrete e.seg q.seg_meta ≡ some i
    → i.bytes ≡ 0
    → r.max_age ≢ 0
    → 1 ≤ i.last_ms
    → i.last_ms + r.max_age < now
    → (lookup ℕ_discrete e.seg (enforce_retention now (e.seg ∷ []) q).0.files ≡ none)
      × ((enforce_retention now (e.seg ∷ []) q).0.entries ≡ e ∷ es)
unfolding enforce_retention sweep sweep_step is_confirmed seg_end drop_segment read_cur
enforce_retention_unmeasured now i r e es q hr hc he hm hb ha hl hn =
    ground (arith, hr, hc, he, hm, hb, ha, hl, hn, lookup-delete ℕ_discrete e.seg e.seg q.files)

-- Where every record is confirmed, the segment that is written to counts as confirmed too. When it is
-- older than the window it is removed and its handle closed, and Append fails with a write error.
pub append_after_retention :
    (now : ℕ) (i : SegInfo) (r : Retention) (rec : List ℕ) (ts : ℕ) (w : Write) (q : Queue)
    → q.retention ≡ some r
    → q.closed ≡ false
    → q.entries ≡ []
    → lookup ℕ_discrete q.wr_cur.segment q.seg_meta ≡ some i
    → i.bytes ≤ q.wr_cur.offset
    → r.max_age ≢ 0
    → 1 ≤ i.last_ms
    → i.last_ms + r.max_age < now
    → length rec ≤ q.max_bytes
    → q.bytes + (header_size + length rec) ≤ q.max_bytes
    → (append rec ts now w (enforce_retention now (q.wr_cur.segment ∷ []) q).0).0 ≡ write_failed
unfolding append rolled write_file enforce_retention sweep sweep_step is_confirmed seg_end
    drop_segment read_cur
append_after_retention now i r rec ts w q hr hc he hm hb ha hl hn hf hq =
    ground (arith, hr, hc, he, hm, hb, ha, hl, hn, hf, hq)
