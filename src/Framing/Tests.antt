-- ===== src/Framing/Tests.antt =====
-- Runs of sdk/framing/framing.go: a flow whose sequence numbers pass 2 ^ 32, with a segment that
-- arrives before the one it follows.
use gametrace.Prelude.{
  ℕ, suc, ◌+◌, ◌≤◌, ◌≡◌, refl, true, false, [], ◌∷◌, ◌++◌, none, some, arith, ite, length, take,
  if◌then◌else◌, String, ℕ_discrete, ◌&&◌, leb,
}
use gametrace.Prelude.Map.{lookup, insert, delete}
use gametrace.Prelude.Text.{text_dec}
use gametrace.Framing.Flow.{
  u32, PendingSeg, FlowState, fresh, seq_less, park, place_ahead, place_based, place, pass_step,
  pass, first_pass, drain_loop, drain, consume,
}
use gametrace.Framing.Slice.{slice}
use gametrace.Framing.Coverage.{Arrives, grown}
use gametrace.Framing.Draining.{Settled}
use gametrace.Framing.Termination.{Drains, drain-Drains}
use gametrace.Framing.Delivery.{
  receive, synced, taken, Run, opened, arrived, consumed, Run-exact, Run-Settled, receive-Settled,
}
use gametrace.Framing.FlowKey.{AddrPort, FlowKey, FlowKey-discrete}
use gametrace.Framing.Reassembler.{
  Segment, Reassembler, Stream, new_reassembler, on_data, push, bytes, consume_stream, flow_for,
  open_new, push_tcp,
}
use gametrace.Framing.Isolation.{IsWellFormed, flow_of, new_reassembler-IsWellFormed}
use gametrace.Framing.Refinement.{IsLive, next_flow, push-IsWellFormed, push-refines}
use gametrace.Framing.Consuming.{past, consume_stream-refines}
use gametrace.Framing.Reopening.{pure_ack, pure_syn, push-syn_keeps}

-- The stream 1, 2, 3, … from the sequence number 2 ^ 32 - 2 on.
abbrev counting : ℕ → ℕ
counting p = suc p

abbrev first_seq : ℕ
first_seq = 4294967294

abbrev late : PendingSeg
late = record { seq = 1; payload = 4 ∷ 5 ∷ [] }

abbrev early : PendingSeg
early = record { seq = first_seq; payload = 1 ∷ 2 ∷ 3 ∷ 4 ∷ [] }

abbrev gapped : FlowState
gapped = receive (synced first_seq) late

abbrev filled : FlowState
filled = receive gapped early

gapped_runs : gapped ≡ record (synced first_seq) { oob = late ∷ [] }
unfolding receive place place_based seq_less place_ahead park drain drain_loop first_pass pass
    pass_step
gapped_runs = refl

filled_runs : filled ≡ record (synced first_seq) { buf = 1 ∷ 2 ∷ 3 ∷ 4 ∷ 5 ∷ [] }
unfolding receive place place_based seq_less place_ahead park drain drain_loop first_pass pass
    pass_step
filled_runs = refl

late-Arrives : Arrives counting first_seq 0 3 late
late-Arrives = record { seq = refl; payload = refl; behind = omega arith; within = omega arith }

early-Arrives : Arrives counting first_seq 0 0 early
early-Arrives = record { seq = refl; payload = refl; behind = omega arith; within = omega arith }

filled-Run : Run counting first_seq filled 0 []
filled-Run = arrived 0 early (arrived 3 late opened late-Arrives) early-Arrives

Run-exact_example :
    take (taken counting first_seq filled 2) filled.buf ++ (consume filled 2).buf
    ≡ slice counting 0 (0 + taken counting first_seq filled 2 + length (consume filled 2).buf)
Run-exact_example = Run-exact counting first_seq (consumed 2 filled-Run)

gapped-Settled : Settled counting first_seq 0 gapped
gapped-Settled = Run-Settled counting first_seq (arrived 3 late opened late-Arrives)

receive-Settled_example :
    Settled counting first_seq 0 filled
    × (grown 0 (length gapped.buf) 0 (length early.payload) ≤ length filled.buf)
receive-Settled_example = receive-Settled counting first_seq 0 early gapped-Settled early-Arrives

abbrev waiting : FlowState
waiting = record fresh { oob = late ∷ [] }

drain-Drains_example :
    (n : ℕ) × (n ≤ suc (length waiting.oob))
    × Drains n waiting (drain waiting)
    × ((m : ℕ) (out : FlowState) → Drains m waiting out → (m ≡ n) × (out ≡ drain waiting))
drain-Drains_example = drain-Drains waiting

abbrev client : AddrPort
client = record { addr = some "10.0.0.1"; port = 4000 }

abbrev server : AddrPort
server = record { addr = some "10.0.0.2"; port = 80 }

abbrev upstream : FlowKey
upstream = record { src = client; dst = server; protocol = "tcp" }

abbrev with_fin : Segment
with_fin = record {
  payload = 7 ∷ 8 ∷ [];
  flow = upstream;
  seq = 50;
  flags = record { fin = true; syn = false; rst = false };
  is_tcp = true;
}

abbrev without_fin : Segment
without_fin = record with_fin { flags = pure_ack }

abbrev closing : Reassembler
closing = (push new_reassembler with_fin).0

abbrev ongoing : Reassembler
ongoing = (push new_reassembler without_fin).0

-- What a run of `push` computes with.
executed : ℕ
unfolding push flow_for open_new push_tcp new_reassembler on_data receive place place_based seq_less
    place_ahead park drain drain_loop first_pass pass pass_step lookup insert delete
    FlowKey-discrete text_dec ℕ_discrete
executed = 0

ongoing-IsWellFormed : IsWellFormed ongoing
ongoing-IsWellFormed = push-IsWellFormed new_reassembler new_reassembler-IsWellFormed without_fin

abbrev held : FlowState
held = record fresh { base = 50; base_set = true; buf = 7 ∷ 8 ∷ [] }

abbrev ended : FlowState
ended = record held { fin_seen = true; fin_seq = 52 }

ongoing_flow : flow_of ongoing upstream ≡ some held
unfolding flow_of executed
ongoing_flow = refl

abbrev ack : Segment
ack = record without_fin { payload = []; seq = 52 }

abbrev syn : Segment
syn = record ack { flags = pure_syn; seq = 900 }

abbrev upstream_stream : Stream
upstream_stream = record { key = upstream; fs = 0 }

upstream-IsLive : IsLive ongoing upstream_stream
unfolding executed
upstream-IsLive = (refl, λ e. cc)

push-refines_example :
    flow_of (push ongoing ack).0 upstream
    ≡ ite
        (FlowKey-discrete upstream upstream)
        (next_flow (flow_of ongoing upstream) ack)
        (flow_of ongoing upstream)
push-refines_example = push-refines ongoing ongoing-IsWellFormed ack upstream

consume_stream-refines_example :
    flow_of (consume_stream ongoing upstream_stream 1) upstream
    ≡ ite
        (FlowKey-discrete upstream upstream)
        (if held.fin_seen && leb (length held.buf) 1 then none else some (past 1 held))
        (flow_of ongoing upstream)
consume_stream-refines_example =
    consume_stream-refines ongoing ongoing-IsWellFormed upstream_stream upstream-IsLive 1 held
      ongoing_flow upstream

push-syn_keeps_example :
    (flow_of (push ongoing syn).0 upstream
      ≡ some (record held { base = u32 (900 + 1); base_set = true }))
    × (bytes (push ongoing syn).0 (push ongoing syn).1 ≡ 7 ∷ 8 ∷ [])
push-syn_keeps_example =
    push-syn_keeps ongoing ongoing-IsWellFormed syn held refl ongoing_flow refl refl refl

abbrev render : AddrPort → String
render a = elim a.addr [ none ↦ "invalid AddrPort" | some host ↦ host ]
