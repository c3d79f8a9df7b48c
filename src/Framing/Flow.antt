-- ===== src/Framing/Flow.antt =====
-- flowState of sdk/framing/framing.go: one directional TCP stream, with sequence numbers modulo 2 ^ 32.
use gametrace.Prelude.{
  ℕ, zero, suc, ◌+◌, ◌-◌, ◌%◌, Bool, true, false, List, [], ◌∷◌, ◌++◌, ltb, leb, ◌==◌, length, drop,
  is_nil, if◌then◌else◌,
}

abbrev pub word : ℕ
word = 4294967296

abbrev pub half_word : ℕ
half_word = 2147483648

-- uint32(n)
abbrev pub u32 : ℕ → ℕ
u32 n = n % word

-- a - b on uint32
abbrev pub sub32 : ℕ → ℕ → ℕ
sub32 a b = (a + word - b) % word

abbrev pub max_oob : ℕ
max_oob = 4096

-- int32(a-b) < 0
unfoldable pub seq_less : ℕ → ℕ → Bool
seq_less a b = leb half_word (sub32 a b)

pub record PendingSeg : Type 0 where
  pub seq : ℕ
  pub payload : List ℕ

pub record FlowState : Type 0 where
  pub base : ℕ
  pub buf : List ℕ
  pub base_set : Bool
  pub oob : List PendingSeg
  pub fin_seen : Bool
  pub fin_seq : ℕ

-- &flowState{}
abbrev pub fresh : FlowState
fresh = record { base = 0; buf = []; base_set = false; oob = []; fin_seen = false; fin_seq = 0 }

-- The segment lies beyond a gap: it is parked, and the oldest one goes if there are too many.
unfoldable pub park : FlowState → ℕ → List ℕ → FlowState
park fs seq payload =
    let oob = fs.oob ++ (record { seq = seq; payload = payload } ∷ []) in
    record fs { oob = if ltb max_oob (length oob) then drop 1 oob else oob }

-- The part of `place` for a segment that does not start before the base.
unfoldable pub place_ahead : FlowState → ℕ → List ℕ → FlowState
place_ahead fs seq payload =
    let off = sub32 seq fs.base in
    let frontier = u32 (length fs.buf) in
    let beyond = sub32 frontier off in
    if ltb frontier off
    then park fs seq payload
    else if off == frontier
    then record fs { buf = fs.buf ++ payload }
    else if leb (u32 (length payload)) beyond
    then fs
    else record fs { buf = fs.buf ++ drop beyond payload }

unfoldable pub place_based : FlowState → ℕ → List ℕ → FlowState
place_based fs seq payload =
    let behind = sub32 fs.base seq in
    if seq_less seq fs.base
    then (if leb (u32 (length payload)) behind
        then fs
        else place_ahead fs fs.base (drop behind payload))
    else place_ahead fs seq payload

unfoldable pub place : FlowState → ℕ → List ℕ → FlowState
place fs seq payload =
    if is_nil payload
    then fs
    else place_based (if fs.base_set then fs else record fs { base = seq; base_set = true }) seq
        payload

-- What one pass of `drain` over the parked segments carries along.
pub record Pass : Type 0 where
  pub buf : List ℕ
  pub kept : List PendingSeg
  pub advanced : Bool

unfoldable pub pass_step : ℕ → PendingSeg → Pass → Pass
pass_step base seg s =
    let off = sub32 seg.seq base in
    let frontier = u32 (length s.buf) in
    let beyond = sub32 frontier off in
    if seq_less seg.seq base
    then s
    else if ltb frontier off
    then record s { kept = s.kept ++ (seg ∷ []) }
    else if off == frontier
    then record s { buf = s.buf ++ seg.payload; advanced = true }
    else if ltb beyond (u32 (length seg.payload))
    then record s { buf = s.buf ++ drop beyond seg.payload; advanced = true }
    else record s { advanced = true }

unfoldable pub pass : ℕ → List PendingSeg → Pass → Pass
pass base [] s = s
pass base (seg ∷ segs) s = pass base segs (pass_step base seg s)

unfoldable pub first_pass : FlowState → Pass
first_pass fs = pass fs.base fs.oob (record { buf = fs.buf; kept = []; advanced = false })

-- The state after a pass.
abbrev pub after_pass : FlowState → Pass → FlowState
after_pass fs s = record fs { buf = s.buf; oob = s.kept }

unfoldable pub drain_loop : ℕ → FlowState → FlowState
drain_loop zero fs = fs
drain_loop (suc fuel) fs =
    let s = first_pass fs in
    elim s.advanced [ true ↦ drain_loop fuel (after_pass fs s) | false ↦ after_pass fs s ]

-- Each pass that advances uses up a parked segment, so this fuel is enough.
unfoldable pub drain : FlowState → FlowState
drain fs = drain_loop (suc (length fs.oob)) fs

-- consume(n); a negative n does what 0 does.
unfoldable pub consume : FlowState → ℕ → FlowState
consume fs n =
    if n == 0
    then fs
    else if leb (length fs.buf) n
    then record fs { base = u32 (fs.base + u32 (length fs.buf)); buf = [] }
    else record fs { base = u32 (fs.base + u32 n); buf = drop n fs.buf }
