-- ===== src/Conn/Tracker.antt =====
-- connTracker of cmd/gt-pipeline/conn_tracker.go. Of a packet it has what the tracker reads and writes.
-- The mutex makes an assignment one step, and the clock's reading is an argument. A finFrom map only
-- ever holds `true`, so it is the list of its keys.
use gametrace.Prelude.{
  ℕ, suc, ◌-◌, ◌*◌, ◌%◌, ◌^◌, String, Bool, false, not, ◌&&◌, ◌||◌, List, [], ◌∷◌, Option, none,
  some, test, length, select, ltb, leb, ◌==◌, if◌then◌else◌, if_true, true, ◌≡◌, refl,
}
use gametrace.Prelude.Map.{Map, lookup, insert, delete}
use gametrace.Prelude.Text.{text_dec, text_lt, concat, decimal, has_prefix}
use gametrace.Framing.FlowKey.{AddrPort, is_valid}

pub record TcpFlags : Type 0 where
  pub fin : Bool
  pub syn : Bool
  pub rst : Bool
  pub ack : Bool

-- What a Packet.Metadata holds, by its dynamic type.
pub data MetaValue : Type 0 where
  text : String → MetaValue
  other : MetaValue

pub record Packet : Type 0 where
  pub src : AddrPort
  pub dst : AddrPort
  pub protocol : String
  pub metadata : Map String MetaValue
  pub tcp_flags : TcpFlags

pub record ConnInst : Type 0 where
  pub id : String
  pub last_seen : ℕ
  pub fin_from : List String

-- `assigns` is read modulo 256 only, which a wrap of an int leaves alone.
pub record ConnTracker : Type 0 where
  pub seq : ℕ
  pub active : Map String ConnInst
  pub assigns : ℕ

-- In nanoseconds, as a time.Duration.
abbrev pub tcp_idle_ttl : ℕ
tcp_idle_ttl = 10 * 60000000000

abbrev pub udp_idle_ttl : ℕ
udp_idle_ttl = 2 * 60000000000

abbrev pub max_tracked_conns : ℕ
max_tracked_conns = 8192

abbrev pub u64 : ℕ
u64 = 2 ^ 64

abbrev pub new_conn_tracker : ConnTracker
new_conn_tracker = record { seq = 0; active = []; assigns = 0 }

-- The identifier of the instance that is number `n` of a tracker.
unfoldable pub instance_id : String → ℕ → String
instance_id key n = concat (key ∷ "#" ∷ decimal n ∷ [])

-- newInstanceLocked: the instance, and the tracker that has it.
unfoldable pub new_instance : String → ConnTracker → ConnInst × ConnTracker
new_instance key t =
    let seq = suc t.seq % u64 in
    let inst : ConnInst = record { id = instance_id key seq; last_seen = 0; fin_from = [] } in
    (inst, record t { seq = seq; active = insert text_dec key inst t.active })

abbrev pub ttl_of : String → ℕ
ttl_of key = if has_prefix key "udp:" then udp_idle_ttl else tcp_idle_ttl

-- The test of the loop of sweepLocked: `now.Sub(lastSeen)` is negative where lastSeen is later.
abbrev pub is_recent : ℕ → String × ConnInst → Bool
is_recent now e = not (ltb (ttl_of e.0) (now - e.1.last_seen))

unfoldable pub sweep : ℕ → ConnTracker → ConnTracker
sweep now t =
    let kept = select (is_recent now) t.active in
    record t { active = if ltb max_tracked_conns (length kept) then [] else kept }

abbrev pub add_fin : String → List String → List String
add_fin end [] = end ∷ []
add_fin end (e ∷ es) = if test (text_dec e end) then e ∷ es else e ∷ add_fin end es

-- The guard on a "conn_id" that is there.
abbrev pub has_conn_id : Option MetaValue → Bool
has_conn_id (some (text v)) = not (test (text_dec v ""))
has_conn_id _ = false

abbrev pub is_tracked : Packet → Bool
is_tracked p =
    (test (text_dec p.protocol "tcp") || test (text_dec p.protocol "udp"))
    && (not (has_conn_id (lookup text_dec "conn_id" p.metadata))
        && (is_valid p.src && is_valid p.dst))

-- An active open: a SYN without an ACK.
abbrev pub is_open : Packet → Bool
is_open p = test (text_dec p.protocol "tcp") && (p.tcp_flags.syn && not p.tcp_flags.ack)

unfoldable pub instance_for : String → Packet → ConnTracker → ConnInst × ConnTracker
instance_for key p t = elim (lookup text_dec key t.active) [
  | none ↦ new_instance key t
  | some inst ↦ if is_open p then new_instance key t else (inst, t)
]

-- What RST and FIN do to the table.
unfoldable pub close_on : String → String → Packet → ConnInst → ConnTracker → ConnTracker
close_on key end p inst t =
    let ended : ConnInst = record inst { fin_from = add_fin end inst.fin_from } in
    if not (test (text_dec p.protocol "tcp"))
    then t
    else if p.tcp_flags.rst
    then record t { active = delete text_dec key t.active }
    else if not p.tcp_flags.fin
    then t
    else if leb 2 (length ended.fin_from)
    then record t { active = delete text_dec key t.active }
    else record t { active = insert text_dec key ended t.active }

unfoldable pub count_assign : ℕ → ConnTracker → ConnTracker
count_assign now t =
    let counted : ConnTracker = record t { assigns = suc t.assigns } in
    if counted.assigns % 256 == 0 then sweep now counted else counted

-- The identifier that a packet is given is in its metadata.
abbrev pub labelled : String → Packet → Packet
labelled id p = record p { metadata = insert text_dec "conn_id" (text id) p.metadata }

-- The text of an address is the standard library's.
module _ (render : AddrPort → String) where
  unfoldable pub canonical_tuple : Packet → String
  canonical_tuple p =
      let a = render p.src in
      let b = render p.dst in
      if text_lt b a
      then concat (p.protocol ∷ ":" ∷ b ∷ "<->" ∷ a ∷ [])
      else concat (p.protocol ∷ ":" ∷ a ∷ "<->" ∷ b ∷ [])

  -- The table after a tracked packet, before the assignment is counted, with the packet's instance.
  unfoldable pub follow : ℕ → Packet → ConnTracker → ConnInst × ConnTracker
  follow now p t =
      let key = canonical_tuple p in
      let (found, opened) = instance_for key p t in
      let seen : ConnInst = record found { last_seen = now } in
      (
        seen,
        close_on key (render p.src) p seen
            (record opened { active = insert text_dec key seen opened.active }),
      )

  unfoldable pub assign : ℕ → Packet → ConnTracker → Packet × ConnTracker
  assign now p t =
      let (seen, followed) = follow now p t in
      if is_tracked p then (labelled seen.id p, count_assign now followed) else (p, t)

  pub assign_tracked :
      (now : ℕ) (p : Packet) (t : ConnTracker)
      → is_tracked p ≡ true
      → assign now p t ≡ (labelled (follow now p t).0.id p, count_assign now (follow now p t).1)
  unfolding assign
  assign_tracked now p t k = if_true _ _ k

  pub id-follow :
      (now : ℕ) (p : Packet) (t : ConnTracker)
      → (follow now p t).0.id ≡ (instance_for (canonical_tuple p) p t).0.id
  unfolding follow
  id-follow now p t = refl
