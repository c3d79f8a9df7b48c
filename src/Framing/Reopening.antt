-- ===== src/Framing/Reopening.antt =====
-- Segments of sdk/framing/framing.go that meet a flow of an earlier connection.
use gametrace.Prelude.{◌+◌, ◌≡◌, true, false, [], some, arith}
use gametrace.Framing.Flow.{u32, FlowState}
use gametrace.Framing.Reassembler.{Segment, TcpFlags, Reassembler, on_syn, push, bytes}
use gametrace.Framing.Isolation.{IsWellFormed, flow_of}
use gametrace.Framing.Refinement.{next_flow, push-refines, bytes-push}

abbrev pub pure_ack : TcpFlags
pure_ack = record { fin = false; syn = false; rst = false }

abbrev pub pure_syn : TcpFlags
pure_syn = record { fin = false; syn = true; rst = false }

module _ (ra : Reassembler) (w : IsWellFormed ra) (seg : Segment) (fs : FlowState)
    (tcp : seg.is_tcp ≡ true) (now : flow_of ra seg.flow ≡ some fs)
    (no_data : seg.payload ≡ []) where
  -- A SYN without data on a flow with no FIN moves the base and keeps the buffer, so that the caller
  -- reads the earlier connection's bytes as the first bytes of the new one.
  pub push-syn_keeps :
      fs.fin_seen ≡ false
      → seg.flags ≡ pure_syn
      → (flow_of (push ra seg).0 seg.flow
          ≡ some (record fs { base = u32 (seg.seq + 1); base_set = true }))
        × (bytes (push ra seg).0 (push ra seg).1 ≡ fs.buf)
  unfolding next_flow on_syn
  push-syn_keeps fin syn =
      (ground (arith, push-refines ra w seg seg.flow), ground (arith, bytes-push ra w seg))
