-- ===== src/Framing/Delivery.antt =====
-- What the caller of sdk/framing/framing.go reads from one flow: segments arrive in any order, cut and
-- repeated in any way, and between them the caller consumes bytes.
use gametrace.Prelude.{
  ℕ, ◌+◌, ◌-◌, ◌≤◌, ◌<◌, ◌≡◌, refl, ap, ap₂, true, List, [], ◌++◌, arith, min, length, drop, take,
  inl, inr, ◌∙◌, lt_cases, le_cases, length-drop, drop_all,
}
use gametrace.Framing.Flow.{half_word, u32, PendingSeg, FlowState, fresh, place, drain, consume}
use gametrace.Framing.Slice.{slice, slice_add, drop-slice, take-slice, seq_of}
use gametrace.Framing.Coverage.{Covers, Arrives, All-IsParked_mono, grown, place-Placed}
use gametrace.Framing.Draining.{Settled, drain-Settled}

-- What Push does with the data of a segment.
unfoldable pub receive : FlowState → PendingSeg → FlowState
receive fs seg = drain (place fs seg.seq seg.payload)

-- What Push makes of a SYN without data on a new flow.
abbrev pub synced : ℕ → FlowState
synced isn = record fresh { base = u32 isn; base_set = true }

module _ (s : ℕ → ℕ) (isn : ℕ) where
  synced-Settled : Settled s isn 0 (synced isn)
  synced-Settled = record {
    based = refl;
    base = omega arith;
    buf = refl;
    window = omega arith;
    parked = tt;
  }

  unsettle : {b : ℕ} {fs : FlowState} → Settled s isn b fs → Covers s isn b b fs
  unsettle {b} {fs} c = record {
    based = c.based;
    base = c.base;
    buf = c.buf;
    window = c.window;
    parked = All-IsParked_mono s isn (omega arith) (omega arith) fs.oob c.parked;
  }

  -- A segment keeps the flow settled, and the frontier reaches at least as far as the segment if that
  -- leaves no gap.
  pub receive-Settled :
      {b : ℕ} {fs : FlowState} (p : ℕ) (seg : PendingSeg)
      → Settled s isn b fs
      → Arrives s isn b p seg
      → Settled s isn b (receive fs seg)
        × (grown b (length fs.buf) p (length seg.payload) ≤ length (receive fs seg).buf)
  unfolding receive
  receive-Settled {b} {fs} p seg c a =
      let (placed, l) = place-Placed s isn p seg (unsettle c) a in
      let (settled, l') = drain-Settled s isn (place fs seg.seq seg.payload) placed in
      (settled, omega (arith, l, l'))

  -- How many bytes a call of consume(n) takes.
  abbrev pub taken : FlowState → ℕ → ℕ
  taken fs n = min n (length fs.buf)

  module _ (fs : FlowState) (n : ℕ) where
    buf-consume : (consume fs n).buf ≡ drop (taken fs n) fs.buf
    unfolding consume
    buf-consume = elim (lt_cases n 0) [
      | inl z ↦ absurd (omega arith)
      | inr (inl z) ↦ let m : taken fs n ≡ 0 = omega arith in rw m (ground arith)
      | inr (inr z) ↦ elim (le_cases (length fs.buf) n) [
        | inl h ↦
            let m : taken fs n ≡ length fs.buf = omega arith in
            rw (m, drop_all fs.buf) (ground arith)
        | inr h ↦ let m : taken fs n ≡ n = omega arith in rw m (ground arith)
      ]
    ]

    base-consume :
        (b : ℕ)
        → fs.base ≡ seq_of isn b
        → length fs.buf < half_word
        → (consume fs n).base ≡ seq_of isn (b + taken fs n)
    unfolding consume
    base-consume b e h = ground arith

    rest-consume : ((consume fs n).base_set ≡ fs.base_set) × ((consume fs n).oob ≡ fs.oob)
    unfolding consume
    rest-consume = ground arith

  module _ {b : ℕ} {fs : FlowState} (n : ℕ) (c : Settled s isn b fs) where
    left : length (consume fs n).buf ≡ length fs.buf - taken fs n
    left = ap length (buf-consume fs n) ∙ length-drop (taken fs n) fs.buf

    -- Consuming moves the base and leaves the frontier where it is.
    pub consume-Settled : Settled s isn (b + taken fs n) (consume fs n)
    consume-Settled = record {
      based = (rest-consume fs n).0 ∙ c.based;
      base = base-consume fs n b c.base c.window;
      buf =
          buf-consume fs n
          ∙ ap (drop (taken fs n)) c.buf
          ∙ drop-slice s b (b + taken fs n) (length fs.buf) (length (consume fs n).buf) (taken fs n)
              refl (omega (arith, left));
      window = omega (arith, left);
      parked =
          rw (rest-consume fs n).1
            (All-IsParked_mono s isn (omega (arith, left)) (omega arith) fs.oob c.parked);
    }

  -- A run of one flow: the state, how many bytes the caller has consumed, and those bytes. Every
  -- segment carries bytes of the stream and lies within half a word of the base.
  pub data Run : FlowState → ℕ → List ℕ → Type 0 where
    opened : Run (synced isn) 0 []
    arrived :
        {fs : FlowState} {b : ℕ} {out : List ℕ} (p : ℕ) (seg : PendingSeg)
        → Run fs b out
        → Arrives s isn b p seg
        → Run (receive fs seg) b out
    consumed :
        {fs : FlowState} {b : ℕ} {out : List ℕ} (n : ℕ)
        → Run fs b out
        → Run (consume fs n) (b + taken fs n) (out ++ take (taken fs n) fs.buf)

  pub Run-Settled : {fs : FlowState} {b : ℕ} {out : List ℕ} → Run fs b out → Settled s isn b fs
  Run-Settled opened = synced-Settled
  Run-Settled (arrived p seg r a) = (receive-Settled p seg (Run-Settled r) a).0
  Run-Settled (consumed n r) = consume-Settled n (Run-Settled r)

  Run-out : {fs : FlowState} {b : ℕ} {out : List ℕ} → Run fs b out → out ≡ slice s 0 b
  Run-out opened = refl
  Run-out (arrived p seg r a) = Run-out r
  Run-out (consumed {fs} {b} {out} n r) =
      ap₂ (◌++◌) (Run-out r) (
        ap (take (taken fs n)) (Run-Settled r).buf
        ∙ take-slice s b (taken fs n) (length fs.buf) (omega arith))
      ∙ slice_add s 0 b b (taken fs n) (b + taken fs n) (omega arith) refl

  -- Whatever the order, overlap and repetition in which segments of a stream arrive, the bytes that the
  -- caller has consumed, followed by those that it can read now, are the stream from its first byte
  -- on, with nothing lost, repeated or reordered.
  pub Run-exact :
      {fs : FlowState} {b : ℕ} {out : List ℕ}
      → Run fs b out
      → out ++ fs.buf ≡ slice s 0 (b + length fs.buf)
  Run-exact {fs} {b} r =
      ap₂ (◌++◌) (Run-out r) (Run-Settled r).buf
      ∙ slice_add s 0 b b (length fs.buf) (b + length fs.buf) (omega arith) refl
