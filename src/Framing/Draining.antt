-- ===== src/Framing/Draining.antt =====
-- The loop `drain` of sdk/framing/framing.go: it ends, keeps the buffer a slice of the stream, and
-- leaves no parked segment that the frontier reaches.
use gametrace.Prelude.{
  ℕ, zero, suc, ◌+◌, ◌-◌, ◌≤◌, ◌<◌, ◌≡◌, refl, sym, ap, Bool, true, false, List, [], ◌∷◌, ◌++◌,
  arith, length, drop, All, All-append, length-append, length-drop, Bool-cases, inl, inr, ◌∙◌,
  lt_cases, le_cases,
}
use gametrace.Framing.Flow.{
  half_word, PendingSeg, FlowState, Pass, pass_step, pass, first_pass, after_pass, drain_loop,
  drain,
}
use gametrace.Framing.Slice.{slice, drop-slice, seq_of, sub32-seq_of, seq_less-after}
use gametrace.Framing.Coverage.{IsParked, Covers, extend-slice}

abbrev pub flag : Bool → ℕ
flag true = 1
flag false = 0

weight-step :
    (base : ℕ) (seg : PendingSeg) (t : Pass)
    → length (pass_step base seg t).kept + flag (pass_step base seg t).advanced
      ≤ length t.kept + flag t.advanced + 1
unfolding pass_step
weight-step base seg t = ground (arith, length-append t.kept (seg ∷ []))

weight-pass :
    (base : ℕ) (segs : List PendingSeg) (t : Pass)
    → length (pass base segs t).kept + flag (pass base segs t).advanced
      ≤ length t.kept + flag t.advanced + length segs
unfolding pass
weight-pass base [] t = omega arith
weight-pass base (seg ∷ segs) t =
    omega (arith, weight-step base seg t, weight-pass base segs (pass_step base seg t))

-- A pass that advances uses up a parked segment.
pub first_pass-shrinks :
    (fs : FlowState) → length (first_pass fs).kept + flag (first_pass fs).advanced ≤ length fs.oob
unfolding first_pass
first_pass-shrinks fs =
    omega (arith, weight-pass fs.base fs.oob (record { buf = fs.buf; kept = []; advanced = false }))

pub loop-on :
    (fuel : ℕ) (fs : FlowState)
    → (first_pass fs).advanced ≡ true
    → drain_loop (suc fuel) fs ≡ drain_loop fuel (after_pass fs (first_pass fs))
unfolding drain_loop
loop-on fuel fs e = rw (e, drain_loop)

pub loop-off :
    (fuel : ℕ) (fs : FlowState)
    → (first_pass fs).advanced ≡ false
    → drain_loop (suc fuel) fs ≡ after_pass fs (first_pass fs)
unfolding drain_loop
loop-off fuel fs e = rw (e, drain_loop)

pass_step-keeps_flag :
    (base : ℕ) (seg : PendingSeg) (t : Pass)
    → t.advanced ≡ true
    → (pass_step base seg t).advanced ≡ true
unfolding pass_step
pass_step-keeps_flag base seg t h = ground arith

pass-keeps_flag :
    (base : ℕ) (segs : List PendingSeg) (t : Pass)
    → t.advanced ≡ true
    → (pass base segs t).advanced ≡ true
unfolding pass
pass-keeps_flag base [] t h = h
pass-keeps_flag base (seg ∷ segs) t h =
    pass-keeps_flag base segs (pass_step base seg t) (pass_step-keeps_flag base seg t h)

module _ (s : ℕ → ℕ) (isn : ℕ) where
  record Holds (b : ℕ) (t : Pass) : Type 0 where
    buf : t.buf ≡ slice s b (length t.buf)
    window : length t.buf < half_word
    parked : All (IsParked s isn b b) t.kept

  module _ {b base : ℕ} {seg : PendingSeg} {t : Pass} (e : base ≡ seq_of isn b)
      (w : IsParked s isn b b seg) (h : Holds b t) where
    step-gap :
        b + length t.buf < w.at → pass_step base seg t ≡ record t { kept = t.kept ++ seg ∷ [] }
    unfolding pass_step
    step-gap g = ground (arith, sub32-seq_of isn w.at b, seq_less-after isn w.at b, w, h)

    step-next :
        w.at ≡ b + length t.buf
        → pass_step base seg t ≡ record t { buf = t.buf ++ seg.payload; advanced = true }
    unfolding pass_step
    step-next g = ground (arith, sub32-seq_of isn w.at b, seq_less-after isn w.at b, w, h)

    step-known :
        w.at < b + length t.buf
        → w.at + length seg.payload ≤ b + length t.buf
        → pass_step base seg t ≡ record t { advanced = true }
    unfolding pass_step
    step-known g k = ground (arith, sub32-seq_of isn w.at b, seq_less-after isn w.at b, w, h)

    step-overlap :
        w.at < b + length t.buf
        → b + length t.buf < w.at + length seg.payload
        → pass_step base seg t
          ≡ record t { buf = t.buf ++ drop (b + length t.buf - w.at) seg.payload; advanced = true }
    unfolding pass_step
    step-overlap g k = ground (arith, sub32-seq_of isn w.at b, seq_less-after isn w.at b, w, h)

    abbrev Kept : Pass → Type 0
    Kept t' = Holds b t' × (length t.buf ≤ length t'.buf)

    Kept-overlap :
        w.at < b + length t.buf
        → b + length t.buf < w.at + length seg.payload
        → Kept (pass_step base seg t)
    Kept-overlap g k = rw (step-overlap g k) (
      record {
        buf =
            extend-slice s isn b (b + length t.buf) (length rest) t.buf rest h.buf
              (ap (drop (b + length t.buf - w.at)) w.payload
                ∙ drop-slice s w.at (b + length t.buf) (length seg.payload) (length rest)
                    (b + length t.buf - w.at) (omega arith) (omega (arith, long)))
              refl;
        window = omega (arith, long, length-append t.buf rest, w);
        parked = h.parked;
      },
      omega (arith, length-append t.buf rest),
    )
      where
        rest : List ℕ
        rest = drop (b + length t.buf - w.at) seg.payload

        long : length rest ≡ length seg.payload - (b + length t.buf - w.at)
        long = length-drop (b + length t.buf - w.at) seg.payload

    Kept-next : w.at ≡ b + length t.buf → Kept (pass_step base seg t)
    Kept-next g = rw (step-next g) (
      record {
        buf =
            extend-slice s isn b w.at (length seg.payload) t.buf seg.payload h.buf w.payload
              (sym g);
        window = omega (arith, length-append t.buf seg.payload, w);
        parked = h.parked;
      },
      omega (arith, length-append t.buf seg.payload),
    )

    step-Kept : Kept (pass_step base seg t)
    step-Kept = elim (lt_cases w.at (b + length t.buf)) [
      | inl l ↦ elim (le_cases (w.at + length seg.payload) (b + length t.buf)) [
        | inl k ↦
            rw (step-known l k)
              (record { buf = h.buf; window = h.window; parked = h.parked }, omega arith)
        | inr k ↦ Kept-overlap l k
      ]
      | inr (inl g) ↦ Kept-next g
      | inr (inr g) ↦ rw (step-gap g) (
        record {
          buf = h.buf;
          window = h.window;
          parked = All-append (IsParked s isn b b) t.kept (seg ∷ []) h.parked (w, tt);
        },
        omega arith,
      )
    ]

    -- A step that does not advance keeps the segment, which lies beyond the frontier.
    step-quiet :
        (pass_step base seg t).advanced ≡ false
        → (b + length t.buf < w.at)
          × (pass_step base seg t ≡ record t { kept = t.kept ++ seg ∷ [] })
    step-quiet q = elim (lt_cases w.at (b + length t.buf)) [
      | inl l ↦ elim (le_cases (w.at + length seg.payload) (b + length t.buf)) [
        | inl k ↦ absurd (cc (step-known l k))
        | inr k ↦ absurd (cc (step-overlap l k))
      ]
      | inr (inl g) ↦ absurd (cc (step-next g))
      | inr (inr g) ↦ (g, step-gap g)
    ]

  pass-Holds :
      {b base : ℕ} (segs : List PendingSeg) {t : Pass}
      → base ≡ seq_of isn b
      → All (IsParked s isn b b) segs
      → Holds b t
      → Holds b (pass base segs t) × (length t.buf ≤ length (pass base segs t).buf)
  unfolding pass
  pass-Holds [] e w h = (h, omega arith)
  pass-Holds {base = base} (seg ∷ segs) {t = t} e w h =
      let (h', l) = step-Kept e w.0 h in
      let (h'', l') = pass-Holds segs e w.1 h' in (h'', omega arith)

  -- Every kept segment lies beyond the frontier.
  abbrev Quiet : ℕ → Pass → Type 0
  Quiet b t = All (IsParked s isn (suc (b + length t.buf)) b) t.kept

  pass-Quiet :
      {b base : ℕ} (segs : List PendingSeg) {t : Pass}
      → base ≡ seq_of isn b
      → All (IsParked s isn b b) segs
      → Holds b t
      → Quiet b t
      → (pass base segs t).advanced ≡ false
      → Quiet b (pass base segs t)
  unfolding pass
  pass-Quiet [] e w h k q = k
  pass-Quiet {b} {base} (seg ∷ segs) {t} e w h k q =
      let (beyond, same) = step-quiet e w.0 h quiet in
      pass-Quiet segs e w.1 (step-Kept e w.0 h).0
        (rw same (
          All-append (IsParked s isn (suc (b + length t.buf)) b) t.kept (seg ∷ []) k (
            record {
              at = w.0.at;
              seq = w.0.seq;
              payload = w.0.payload;
              after = beyond;
              within = w.0.within;
            },
            tt,
          )))
        q
    where
      quiet : (pass_step base seg t).advanced ≡ false
      quiet = elim (Bool-cases (pass_step base seg t).advanced) [
        | inl on ↦ absurd (cc (pass-keeps_flag base segs (pass_step base seg t) on))
        | inr off ↦ off
      ]

  module _ {b : ℕ} {fs : FlowState} (c : Covers s isn b b fs) where
    start : Holds b (record { buf = fs.buf; kept = []; advanced = false })
    start = record { buf = c.buf; window = c.window; parked = tt }

    first-Holds : Holds b (first_pass fs) × (length fs.buf ≤ length (first_pass fs).buf)
    unfolding first_pass
    first-Holds = pass-Holds fs.oob c.base c.parked start

    first-Quiet : (first_pass fs).advanced ≡ false → Quiet b (first_pass fs)
    unfolding first_pass
    first-Quiet q = pass-Quiet fs.oob c.base c.parked start tt q

    after-Covers : Covers s isn b b (after_pass fs (first_pass fs))
    after-Covers = record {
      based = c.based;
      base = c.base;
      buf = first-Holds.0.buf;
      window = first-Holds.0.window;
      parked = first-Holds.0.parked;
    }

  -- What `drain` makes of a flow: nothing parked is within reach of the frontier.
  abbrev pub Settled : ℕ → FlowState → Type 0
  Settled b fs = Covers s isn (suc (b + length fs.buf)) b fs

  loop-Settled :
      (fuel : ℕ) {b : ℕ} (fs : FlowState)
      → length fs.oob < fuel
      → Covers s isn b b fs
      → Settled b (drain_loop fuel fs) × (length fs.buf ≤ length (drain_loop fuel fs).buf)
  loop-Settled zero fs f c = absurd (omega arith)
  loop-Settled (suc fuel) {b} fs f c = elim (Bool-cases (first_pass fs).advanced) [
    | inl on ↦
        let (done, l) =
          loop-Settled fuel {b = b} (after_pass fs (first_pass fs))
            (omega (arith, first_pass-shrinks fs, ap flag on)) (after-Covers c) in
        rw (loop-on fuel fs on) (done, omega (arith, l, first-Holds c))
    | inr off ↦ rw (loop-off fuel fs off) (
      record {
        based = c.based;
        base = c.base;
        buf = (first-Holds c).0.buf;
        window = (first-Holds c).0.window;
        parked = first-Quiet c off;
      },
      (first-Holds c).1,
    )
  ]

  -- `drain` ends with the buffer a slice of the stream, no shorter than before, and with every parked
  -- segment beyond the frontier.
  pub drain-Settled :
      {b : ℕ} (fs : FlowState)
      → Covers s isn b b fs
      → Settled b (drain fs) × (length fs.buf ≤ length (drain fs).buf)
  unfolding drain
  drain-Settled fs c = loop-Settled (suc (length fs.oob)) fs (omega arith) c
