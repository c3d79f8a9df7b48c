-- ===== src/Spool/Retention.antt =====
-- EnforceRetention of pkg/spool/retention.go: old segments whose records were all confirmed are removed.
use gametrace.Prelude.{
  ℕ, suc, ◌+◌, ◌-◌, ◌≤◌, ◌<◌, Bool, true, false, not, ◌&&◌, ◌≡◌, ◌≢◌, refl, List, [], ◌∷◌, Option,
  none, some, arith, length, ltb, leb, ◌==◌, if◌then◌else◌, ℕ_discrete, ap, sym, ◌∙◌, subst, ◌⊎◌,
  inl, inr,
}
use gametrace.Prelude.Map.{Map, lookup, lookup-delete}
use gametrace.Spool.Frame.{Entry}
use gametrace.Spool.Queue.{SegInfo, Retention, Queue, read_cur, drop_segment, contents}

-- The end of a segment, by its metadata or else by its file.
unfoldable pub seg_end : ℕ → Queue → ℕ
seg_end seg q = elim (lookup ℕ_discrete seg q.seg_meta) [
  | none ↦ length (contents seg q.files)
  | some i ↦ i.bytes
]

-- segFullyConfirmedLocked
unfoldable pub is_confirmed : ℕ → Queue → Bool
is_confirmed seg q =
    if ltb seg (read_cur q).segment
    then true
    else if ltb (read_cur q).segment seg
    then false
    else leb (seg_end seg q) (read_cur q).offset

unfoldable pub confirmed_bytes : Queue → Map ℕ SegInfo → ℕ
confirmed_bytes q [] = 0
confirmed_bytes q ((seg, i) ∷ m) = (if is_confirmed seg q then i.bytes else 0) + confirmed_bytes q m

-- What the loop of EnforceRetention carries along.
pub record Sweep : Type 0 where
  pub queue : Queue
  pub total : ℕ
  pub removed : ℕ

abbrev pub is_expired : ℕ → SegInfo → Bool
is_expired cutoff i = ltb 0 cutoff && ltb 0 i.last_ms && ltb i.last_ms cutoff

unfoldable pub sweep_step : Retention → ℕ → ℕ → Sweep → Sweep
sweep_step r cutoff seg s = elim (lookup ℕ_discrete seg s.queue.seg_meta) [
  | none ↦ s
  | some i ↦
      if not (is_confirmed seg s.queue)
      then s
      else if not (is_expired cutoff i) && not (ltb 0 r.max_bytes && ltb r.max_bytes s.total)
      then s
      else record {
        queue = drop_segment seg s.queue;
        total = s.total - i.bytes;
        removed = suc s.removed;
      }
]

-- The loop over the map's keys, in the order in which Go gives them.
unfoldable pub sweep : Retention → ℕ → List ℕ → Sweep → Sweep
sweep r cutoff [] s = s
sweep r cutoff (seg ∷ segs) s = sweep r cutoff segs (sweep_step r cutoff seg s)

-- EnforceRetention at a time in milliseconds.
unfoldable pub enforce_retention : ℕ → List ℕ → Queue → Queue × ℕ
enforce_retention now order q = elim q.retention [
  | none ↦ (q, 0)
  | some r ↦
      let s =
        sweep r (if r.max_age == 0 then 0 else now - r.max_age) order
          (record { queue = q; total = confirmed_bytes q q.seg_meta; removed = 0 }) in
      if q.closed then (q, 0) else (s.queue, s.removed)
]

-- The metadata of a segment counts the bytes of the records that wait in it.
pub record IsMeasured (q : Queue) (e : Entry) : Type 0 where
  pub counted : e.off < seg_end e.seg q
  pub behind :
      ((read_cur q).segment < e.seg)
      ⊎ (((read_cur q).segment ≡ e.seg) × ((read_cur q).offset ≤ e.off))

waits : (q : Queue) (e : Entry) → IsMeasured q e → is_confirmed e.seg q ≡ false
unfolding is_confirmed
waits q e m = elim m.behind [
  | inl h ↦ ground (arith, h)
  | inr h ↦ ground (arith, h.0, h.1, m.counted)
]

-- The sweep keeps the entries, the write cursor and a segment that is not confirmed.
record Keeps (q : Queue) (e : Entry) (p : Queue) : Type 0 where
  cursor : read_cur p ≡ read_cur q
  file : lookup ℕ_discrete e.seg p.files ≡ lookup ℕ_discrete e.seg q.files
  meta : lookup ℕ_discrete e.seg p.seg_meta ≡ lookup ℕ_discrete e.seg q.seg_meta
  waiting : p.entries ≡ q.entries

read_cur-drop : (seg : ℕ) (q : Queue) → read_cur (drop_segment seg q) ≡ read_cur q
unfolding read_cur drop_segment
read_cur-drop seg q = ground arith

drop-Keeps :
    (q : Queue) (e : Entry) (seg : ℕ) (p : Queue)
    → seg ≢ e.seg
    → Keeps q e p
    → Keeps q e (drop_segment seg p)
unfolding drop_segment
drop-Keeps q e seg p n k = record {
  cursor = read_cur-drop seg p ∙ k.cursor;
  file = ground (arith, k.file, lookup-delete ℕ_discrete seg e.seg p.files);
  meta = ground (arith, k.meta, lookup-delete ℕ_discrete seg e.seg p.seg_meta);
  waiting = k.waiting;
}

waits_still :
    (q : Queue) (e : Entry) (p : Queue)
    → IsMeasured q e
    → Keeps q e p
    → is_confirmed e.seg p ≡ false
unfolding is_confirmed seg_end
waits_still q e p m k =
    let w = waits q e m in
    let end : seg_end e.seg p ≡ seg_end e.seg q = same_end in ground (arith, w, k.cursor, end)
  where
    same_end : seg_end e.seg p ≡ seg_end e.seg q
    same_end = ground (arith, k.meta, k.file)

step_cases :
    (r : Retention) (cutoff seg : ℕ) (s : Sweep)
    → ((sweep_step r cutoff seg s).queue ≡ s.queue)
      ⊎ (((sweep_step r cutoff seg s).queue ≡ drop_segment seg s.queue)
          × (is_confirmed seg s.queue ≡ true))
unfolding sweep_step
step_cases r cutoff seg s = ground arith

clash : (b : Bool) → b ≡ true → b ≡ false → ⊥
clash b h k = ground arith

sweep-Keeps :
    (q : Queue) (e : Entry) (r : Retention) (cutoff : ℕ) (segs : List ℕ) (s : Sweep)
    → IsMeasured q e
    → Keeps q e s.queue
    → Keeps q e (sweep r cutoff segs s).queue
unfolding sweep
sweep-Keeps q e r cutoff [] s m k = k
sweep-Keeps q e r cutoff (seg ∷ segs) s m k =
    sweep-Keeps q e r cutoff segs (sweep_step r cutoff seg s) m (elim (step_cases r cutoff seg s) [
      | inl h ↦ subst (Keeps q e) (sym h) k
      | inr h ↦ subst (Keeps q e) (sym h.0) (
          drop-Keeps q e seg s.queue
            (λ p.
              clash (is_confirmed seg s.queue) h.1
                (ap (λ x. is_confirmed x s.queue) p ∙ waits_still q e s.queue m k))
            k)
    ])

start_Keeps : (q : Queue) (e : Entry) → Keeps q e q
start_Keeps q e = record { cursor = refl; file = refl; meta = refl; waiting = refl }

kept :
    (now : ℕ) (order : List ℕ) (q : Queue) (e : Entry)
    → IsMeasured q e
    → ((enforce_retention now order q).0 ≡ q) ⊎ Keeps q e (enforce_retention now order q).0
unfolding enforce_retention
kept now order q e m = go q.retention refl
  where
    start : Sweep
    start = record { queue = q; total = confirmed_bytes q q.seg_meta; removed = 0 }

    swept :
        (r : Retention)
        → Keeps q e (sweep r (if r.max_age == 0 then 0 else now - r.max_age) order start).queue
    swept r = sweep-Keeps q e r _ order start m (start_Keeps q e)

    by_case :
        (r : Retention)
        → q.retention ≡ some r
        → ((enforce_retention now order q).0 ≡ q)
          ⊎ ((enforce_retention now order q).0
              ≡ (sweep r (if r.max_age == 0 then 0 else now - r.max_age) order start).queue)
    by_case r h = ground (arith, h)

    go :
        (o : Option Retention)
        → q.retention ≡ o
        → ((enforce_retention now order q).0 ≡ q) ⊎ Keeps q e (enforce_retention now order q).0
    go none h = inl (ground (arith, h))
    go (some r) h = elim (by_case r h) [
      | inl p ↦ inl p
      | inr p ↦ inr (subst (Keeps q e) (sym p) (swept r))
    ]

-- Retention, in whatever order it takes the segments, removes no record from the queue and no segment with
-- a record that waits: one that is not before the read cursor and starts before the end that the segment's
-- metadata gives.
pub enforce_retention-keeps :
    (now : ℕ) (order : List ℕ) (q : Queue) (e : Entry)
    → IsMeasured q e
    → ((enforce_retention now order q).0.entries ≡ q.entries)
      × (lookup ℕ_discrete e.seg (enforce_retention now order q).0.files
          ≡ lookup ℕ_discrete e.seg q.files)
unfolding enforce_retention
enforce_retention-keeps now order q e m = elim (kept now order q e m) [
  | inl h ↦ (ap (λ (p : Queue). p.entries) h, ap (λ (p : Queue). lookup ℕ_discrete e.seg p.files) h)
  | inr k ↦ (k.waiting, k.file)
]
