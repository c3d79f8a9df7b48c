-- ===== src/Framing/Coverage.antt =====
-- What a flow state of sdk/framing/framing.go holds of the peer's byte stream, and that `place` and
-- `consume` keep it. The stream is `s`, its first sequence number `isn`.
use gametrace.Prelude.{
  lt_cases, le_cases, ℕ, ◌+◌, ◌-◌, ◌≤◌, ◌<◌, ◌≡◌, refl, sym, ap, leb, if◌then◌else◌, length-drop,
  ap₂, ltb, true, List, [], ◌∷◌, ◌++◌, arith, max, length, drop, All, All-append, length-append,
  Bool-cases, inl, inr, ◌∙◌,
}
use gametrace.Framing.Flow.{
  half_word, PendingSeg, FlowState, park, place_ahead, place_based, place, max_oob,
}
use gametrace.Framing.Slice.{
  slice, length-slice, slice_add, drop-slice, seq_of, sub32-seq_of, seq_less-before, seq_less-after,
}

-- Where the frontier lies after a segment of n bytes at p, for a buffer of l bytes at b: it moves if
-- the segment leaves no gap.
abbrev pub grown : ℕ → ℕ → ℕ → ℕ → ℕ
grown b l p n = if leb p (b + l) then max l (p + n - b) else l

module _ (s : ℕ → ℕ) (isn : ℕ) where
  -- A parked segment holds a slice that starts at `lo` or later and ends within half a word of `b`.
  pub record IsParked (lo b : ℕ) (seg : PendingSeg) : Type 0 where
    pub at : ℕ
    pub seq : seg.seq ≡ seq_of isn at
    pub payload : seg.payload ≡ slice s at (length seg.payload)
    pub after : lo ≤ at
    pub within : at + length seg.payload < b + half_word

  -- The buffer holds the stream from position `b` on, without a gap.
  pub record Covers (lo b : ℕ) (fs : FlowState) : Type 0 where
    pub based : fs.base_set ≡ true
    pub base : fs.base ≡ seq_of isn b
    pub buf : fs.buf ≡ slice s b (length fs.buf)
    pub window : length fs.buf < half_word
    pub parked : All (IsParked lo b) fs.oob

  -- An arriving segment: bytes of the stream from `p` on, within half a word of `b`.
  pub record Arrives (b p : ℕ) (seg : PendingSeg) : Type 0 where
    pub seq : seg.seq ≡ seq_of isn p
    pub payload : seg.payload ≡ slice s p (length seg.payload)
    pub behind : b ≤ p + half_word
    pub within : p + length seg.payload < b + half_word

  IsParked-mono :
      {lo lo' b b' : ℕ}
      → lo' ≤ lo
      → b ≤ b'
      → (seg : PendingSeg) → IsParked lo b seg
      → IsParked lo' b' seg
  IsParked-mono h k seg w = record {
    at = w.at;
    seq = w.seq;
    payload = w.payload;
    after = omega arith;
    within = omega arith;
  }

  pub All-IsParked_mono :
      {lo lo' b b' : ℕ}
      → lo' ≤ lo
      → b ≤ b'
      → (segs : List PendingSeg) → All (IsParked lo b) segs
      → All (IsParked lo' b') segs
  All-IsParked_mono h k [] w = tt
  All-IsParked_mono h k (seg ∷ segs) w = (IsParked-mono h k seg w.0, All-IsParked_mono h k segs w.1)

  All-drop_one :
      (lo b : ℕ) (segs : List PendingSeg)
      → All (IsParked lo b) segs
      → All (IsParked lo b) (drop 1 segs)
  All-drop_one lo b [] w = tt
  All-drop_one lo b (seg ∷ segs) w = w.1

  park-Covers :
      {b : ℕ} {fs : FlowState} (seg : PendingSeg)
      → Covers b b fs
      → IsParked b b seg
      → Covers b b (park fs seg.seq seg.payload)
  unfolding park
  park-Covers {b} {fs} seg c w = record {
    based = c.based;
    base = c.base;
    buf = c.buf;
    window = c.window;
    parked = elim (Bool-cases (ltb max_oob (length (fs.oob ++ seg ∷ [])))) [
      | inl e ↦ rw e (All-drop_one b b (fs.oob ++ seg ∷ []) all)
      | inr e ↦ rw e all
    ];
  }
    where
      all : All (IsParked b b) (fs.oob ++ seg ∷ [])
      all = All-append (IsParked b b) fs.oob (seg ∷ []) c.parked (w, tt)

  -- Appending what follows the frontier.
  pub extend-slice :
      (b q n : ℕ) (xs ys : List ℕ)
      → xs ≡ slice s b (length xs)
      → ys ≡ slice s q n
      → b + length xs ≡ q
      → xs ++ ys ≡ slice s b (length (xs ++ ys))
  extend-slice b q n xs ys hx hy e =
      ap₂ (◌++◌) hx hy
      ∙ slice_add s b q (length xs) n (length (xs ++ ys)) e
          (omega (arith, length-append xs ys, ap length hy, length-slice s q n))

  module _ {b : ℕ} {fs : FlowState} (p : ℕ) (seg : PendingSeg) (c : Covers b b fs)
      (a : Arrives b p seg) where
    ahead-gap :
        b + length fs.buf < p → place_ahead fs seg.seq seg.payload ≡ park fs seg.seq seg.payload
    unfolding place_ahead
    ahead-gap h = ground (arith, sub32-seq_of isn p b, c, a)

    ahead-next :
        p ≡ b + length fs.buf
        → place_ahead fs seg.seq seg.payload ≡ record fs { buf = fs.buf ++ seg.payload }
    unfolding place_ahead
    ahead-next h = ground (arith, sub32-seq_of isn p b, c, a)

    ahead-known :
        b ≤ p
        → p + length seg.payload ≤ b + length fs.buf
        → p < b + length fs.buf
        → place_ahead fs seg.seq seg.payload ≡ fs
    unfolding place_ahead
    ahead-known h k l = ground (arith, sub32-seq_of isn p b, c, a)

    ahead-overlap :
        b ≤ p
        → p < b + length fs.buf
        → b + length fs.buf < p + length seg.payload
        → place_ahead fs seg.seq seg.payload
          ≡ record fs { buf = fs.buf ++ drop (b + length fs.buf - p) seg.payload }
    unfolding place_ahead
    ahead-overlap h k l = ground (arith, sub32-seq_of isn p b, c, a)

    extended :
        (q : ℕ) (ys : List ℕ)
        → ys ≡ slice s q (length ys)
        → b + length fs.buf ≡ q
        → q + length ys < b + half_word
        → Covers b b (record fs { buf = fs.buf ++ ys })
    extended q ys hy e h = record {
      based = c.based;
      base = c.base;
      parked = c.parked;
      buf = extend-slice b q (length ys) fs.buf ys c.buf hy e;
      window = omega (arith, length-append fs.buf ys);
    }

    abbrev Placed : FlowState → Type 0
    Placed fs' = Covers b b fs' × (length fs'.buf ≡ grown b (length fs.buf) p (length seg.payload))

    known-Placed :
        b ≤ p
        → p + length seg.payload ≤ b + length fs.buf
        → p < b + length fs.buf
        → Placed (place_ahead fs seg.seq seg.payload)
    known-Placed h k l = rw (ahead-known h k l) (c, ground arith)

    overlap-Placed :
        b ≤ p
        → p < b + length fs.buf
        → b + length fs.buf < p + length seg.payload
        → Placed (place_ahead fs seg.seq seg.payload)
    overlap-Placed h k l = rw (ahead-overlap h k l) (
      extended (b + length fs.buf) rest
          (ap (drop (b + length fs.buf - p)) a.payload
            ∙ drop-slice s p (b + length fs.buf) (length seg.payload) (length rest)
                (b + length fs.buf - p) (omega arith) (omega (arith, long)))
          refl (omega (arith, long, a)),
      ground (arith, long, length-append fs.buf rest),
    )
      where
        rest : List ℕ
        rest = drop (b + length fs.buf - p) seg.payload

        long : length rest ≡ length seg.payload - (b + length fs.buf - p)
        long = length-drop (b + length fs.buf - p) seg.payload

    next-Placed : p ≡ b + length fs.buf → Placed (place_ahead fs seg.seq seg.payload)
    next-Placed e = rw (ahead-next e) (
      extended p seg.payload a.payload (sym e) a.within,
      ground (arith, length-append fs.buf seg.payload),
    )

    gap-Placed : b + length fs.buf < p → Placed (place_ahead fs seg.seq seg.payload)
    unfolding park
    gap-Placed g = rw (ahead-gap g) (
      park-Covers seg c (record {
        at = p;
        seq = a.seq;
        payload = a.payload;
        after = omega arith;
        within = a.within;
      }),
      ground arith,
    )

    ahead-Placed : b ≤ p → Placed (place_ahead fs seg.seq seg.payload)
    ahead-Placed h = elim (lt_cases p (b + length fs.buf)) [
      | inl l ↦ elim (le_cases (p + length seg.payload) (b + length fs.buf)) [
        | inl k ↦ known-Placed h k l
        | inr k ↦ overlap-Placed h l k
      ]
      | inr (inl e) ↦ next-Placed e
      | inr (inr g) ↦ gap-Placed g
    ]

  module _ {b : ℕ} {fs : FlowState} (p : ℕ) (seg : PendingSeg) (c : Covers b b fs)
      (a : Arrives b p seg) where
    trimmed : PendingSeg
    trimmed = record { seq = fs.base; payload = drop (b - p) seg.payload }

    trimmed-Arrives : p < b → b < p + length seg.payload → Arrives b b trimmed
    unfolding trimmed
    trimmed-Arrives h k = record {
      seq = c.base;
      payload =
          ap (drop (b - p)) a.payload
          ∙ drop-slice s p b (length seg.payload) (length (drop (b - p) seg.payload)) (b - p)
              (omega arith) (omega (arith, length-drop (b - p) seg.payload));
      behind = omega arith;
      within = omega (arith, length-drop (b - p) seg.payload, a);
    }

    based-stale : p < b → p + length seg.payload ≤ b → place_based fs seg.seq seg.payload ≡ fs
    unfolding place_based
    based-stale h k = ground (arith, sub32-seq_of isn b p, seq_less-before isn p b, c, a)

    based-trim :
        p < b
        → b < p + length seg.payload
        → place_based fs seg.seq seg.payload ≡ place_ahead fs trimmed.seq trimmed.payload
    unfolding place_based trimmed
    based-trim h k = ground (arith, sub32-seq_of isn b p, seq_less-before isn p b, c, a)

    based-ahead : b ≤ p → place_based fs seg.seq seg.payload ≡ place_ahead fs seg.seq seg.payload
    unfolding place_based
    based-ahead h = ground (arith, seq_less-after isn p b, c, a)

    based-Placed : Placed p seg c a (place_based fs seg.seq seg.payload)
    unfolding trimmed
    based-Placed = elim (le_cases b p) [
      | inl h ↦ rw (based-ahead h) (ahead-Placed p seg c a h)
      | inr h ↦ elim (le_cases (p + length seg.payload) b) [
        | inl k ↦ rw (based-stale h k) (c, ground arith)
        | inr k ↦
            let (c', e) = ahead-Placed b trimmed c (trimmed-Arrives h k) (omega arith) in
            rw (based-trim h k) (c', e ∙ ground (arith, length-drop (b - p) seg.payload))
      ]
    ]

    -- A segment of the stream leaves the buffer a slice of the stream and moves the frontier to its
    -- end, unless it starts beyond a gap.
    pub place-Placed :
        Covers b b (place fs seg.seq seg.payload)
        × (length (place fs seg.seq seg.payload).buf
            ≡ grown b (length fs.buf) p (length seg.payload))
    unfolding place
    place-Placed = ground (arith, based-Placed, c)
