-- ===== src/Conn/Tests.antt =====
-- Runs of cmd/gt-pipeline/conn_tracker.go: a connection that is opened, answered and opened again.
use gametrace.Prelude.{String, ◌≡◌, ◌≢◌, refl, true, false, [], ◌∷◌, none, some, arith, All, inl}
use gametrace.Prelude.Map.{lookup, insert, delete}
use gametrace.Prelude.Text.{text_dec, text_lt, lex_lt, concat, decimal}
use gametrace.Framing.FlowKey.{AddrPort}
use gametrace.Conn.Tracker.{
  TcpFlags, Packet, text, ConnTracker, new_conn_tracker, instance_id, new_instance, instance_for,
  close_on, sweep, count_assign, canonical_tuple, follow, assign,
}
use gametrace.Conn.Bounds.{IsBounded, assign-IsBounded, new_conn_tracker-IsBounded}
use gametrace.Conn.History.{conn_id_of, start, given, assign-History_fresh}

abbrev show : AddrPort → String
show a = elim a.addr [ none ↦ "invalid AddrPort" | some s ↦ s ]

abbrev phone : AddrPort
phone = record { addr = some "10.0.0.2:5000"; port = 5000 }

abbrev server : AddrPort
server = record { addr = some "10.0.0.9:443"; port = 443 }

abbrev tcp : AddrPort → AddrPort → TcpFlags → Packet
tcp a b f = record { src = a; dst = b; protocol = "tcp"; metadata = []; tcp_flags = f }

abbrev opening : Packet
opening = tcp phone server (record { fin = false; syn = true; rst = false; ack = false })

abbrev answer : Packet
answer = tcp server phone (record { fin = false; syn = true; rst = false; ack = true })

abbrev farewell : Packet
farewell = tcp phone server (record { fin = true; syn = false; rst = false; ack = true })

abbrev parting : Packet
parting = tcp server phone (record { fin = true; syn = false; rst = false; ack = true })

abbrev opened : ConnTracker
opened = (assign show 100 opening new_conn_tracker).1

opening_id :
    conn_id_of (assign show 100 opening new_conn_tracker).0
    ≡ some (text "tcp:10.0.0.2:5000<->10.0.0.9:443#1")
unfolding assign follow canonical_tuple instance_for new_instance instance_id close_on count_assign
    sweep lookup insert delete text_dec text_lt lex_lt concat decimal
opening_id = refl

-- Both ends have closed, so the next packet begins an instance.
both_closed : (assign show 102 parting (assign show 101 farewell opened).1).1.active ≡ []
unfolding assign follow canonical_tuple instance_for new_instance instance_id close_on count_assign
    sweep lookup insert delete text_dec text_lt lex_lt concat decimal
both_closed = refl

assign-History_fresh_example :
    (id : String) × (conn_id_of (assign show 200 opening opened).0 ≡ some (text id))
    × All (λ old. old ≢ id) ((follow show 100 opening new_conn_tracker).0.id ∷ [])
unfolding text_dec lookup
assign-History_fresh_example =
    assign-History_fresh show 200 opening (given 100 opening refl start) (omega arith) refl
      (inl refl)

assign-IsBounded_example : IsBounded opened
assign-IsBounded_example =
    assign-IsBounded show 100 opening new_conn_tracker new_conn_tracker-IsBounded
