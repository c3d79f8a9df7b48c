-- ===== src/Framing/Reassembler.antt =====
-- Reassembler and Stream of sdk/framing/framing.go. A flow state is shared between the map of flows
-- and the Streams handed out, so the states stand in a heap and both hold its addresses.
use gametrace.Prelude.{
  ℕ, ◌+◌, Bool, true, not, ◌&&◌, List, [], ◌∷◌, ◌++◌, Option, none, some, length, get_elem?, set,
  is_nil, if◌then◌else◌, test,
}
use gametrace.Prelude.Map.{Map, lookup, insert, delete}
use gametrace.Framing.FlowKey.{FlowKey, FlowKey-discrete, no_flow}
use gametrace.Framing.Flow.{u32, FlowState, fresh, consume}
use gametrace.Framing.Delivery.{receive}

pub record TcpFlags : Type 0 where
  pub fin : Bool
  pub syn : Bool
  pub rst : Bool

-- `link_type` and the flags that reassembly does not read are left out.
pub record Segment : Type 0 where
  pub payload : List ℕ
  pub flow : FlowKey
  pub seq : ℕ
  pub flags : TcpFlags
  pub is_tcp : Bool

pub record Reassembler : Type 0 where
  pub heap : List FlowState
  pub flows : Map FlowKey ℕ

-- `fs` is the address of the flow state.
pub record Stream : Type 0 where
  pub key : FlowKey
  pub fs : ℕ

abbrev pub find : FlowKey → Reassembler → Option ℕ
find k ra = lookup FlowKey-discrete k ra.flows

abbrev pub remove : FlowKey → Reassembler → Reassembler
remove k ra = record ra { flows = delete FlowKey-discrete k ra.flows }

abbrev pub load : Reassembler → ℕ → FlowState
load ra a = elim (get_elem? ra.heap a) [ none ↦ fresh | some fs ↦ fs ]

abbrev pub store : Reassembler → ℕ → FlowState → Reassembler
store ra a fs = record ra { heap = set ra.heap a fs }

abbrev pub alloc : Reassembler → FlowState → Reassembler
alloc ra fs = record ra { heap = ra.heap ++ (fs ∷ []) }

unfoldable pub new_reassembler : Reassembler
new_reassembler = record { heap = []; flows = [] }

-- The state for a flow is a new one if there is none, or if the last one has seen a FIN.
unfoldable pub open_new : Reassembler → FlowKey → Reassembler × ℕ
open_new ra k = (
  record (alloc ra fresh) { flows = insert FlowKey-discrete k (length ra.heap) ra.flows },
  length ra.heap,
)

unfoldable pub flow_for : Reassembler → FlowKey → Reassembler × ℕ
flow_for ra k = elim (find k ra) [
  | none ↦ open_new ra k
  | some a ↦ if (load ra a).fin_seen then open_new ra k else (ra, a)
]

-- What a SYN makes of the state of its flow.
unfoldable pub on_syn : FlowState → Segment → FlowState
on_syn fs seg =
    let based = record fs { base = u32 (seg.seq + 1); base_set = true } in
    if is_nil seg.payload
    then based
    else receive based (record { seq = u32 (seg.seq + 1); payload = seg.payload })

-- What data and FIN make of the state of their flow.
unfoldable pub on_data : FlowState → Segment → FlowState
on_data fs seg =
    let fed =
      if is_nil seg.payload
      then fs
      else receive fs (record { seq = seg.seq; payload = seg.payload }) in
    if seg.flags.fin
    then record fed {
      fin_seen = true;
      fin_seq = if is_nil seg.payload then seg.seq else u32 (seg.seq + u32 (length seg.payload));
    }
    else fed

-- A flow whose FIN was seen and whose buffer is empty is retired.
abbrev pub is_spent : FlowState → Bool
is_spent fs = fs.fin_seen && is_nil fs.buf

unfoldable pub push_tcp : Reassembler → ℕ → Segment → Reassembler × Stream
push_tcp ra a seg =
    let stream : Stream = record { key = seg.flow; fs = a } in
    let fs = on_data (load ra a) seg in
    if seg.flags.rst
    then (
      alloc (remove seg.flow ra) (record fresh { base_set = true }),
      record { key = seg.flow; fs = length ra.heap },
    )
    else if seg.flags.syn
    then (store ra a (on_syn (load ra a) seg), stream)
    else if is_spent fs
    then (remove seg.flow (store ra a fs), stream)
    else (store ra a fs, stream)

unfoldable pub push : Reassembler → Segment → Reassembler × Stream
push ra seg =
    if not seg.is_tcp
    then (
      alloc ra (record fresh { buf = seg.payload; base_set = true }),
      record { key = no_flow; fs = length ra.heap },
    )
    else (let (ra', a) = flow_for ra seg.flow in push_tcp ra' a seg)

-- Stream.Bytes
unfoldable pub bytes : Reassembler → Stream → List ℕ
bytes ra st = (load ra st.fs).buf

-- Stream.Consume
unfoldable pub consume_stream : Reassembler → Stream → ℕ → Reassembler
consume_stream ra st n =
    let fs = consume (load ra st.fs) n in
    let ra' = store ra st.fs fs in
    if not (test (FlowKey-discrete st.key no_flow)) && is_spent fs then remove st.key ra' else ra'

unfoldable pub forget : Reassembler → FlowKey → Reassembler
forget ra k = remove k ra

unfoldable pub reset : Reassembler → Reassembler
reset ra = record ra { flows = [] }
