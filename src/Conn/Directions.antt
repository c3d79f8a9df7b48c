-- ===== src/Conn/Directions.antt =====
-- The packets that travel between one pair of ends, either way, are given one identifier.
use gametrace.Prelude.{String, ◌≡◌, Bool, true, false, [], ◌∷◌, ◌⊎◌, if◌then◌else◌}
use gametrace.Prelude.Text.{text_lt, concat}
use gametrace.Conn.Tracker.{Packet}

-- A packet that ends nothing.
abbrev pub is_closing : Packet → Bool
is_closing p = elim p.tcp_flags.rst [ true ↦ true | false ↦ p.tcp_flags.fin ]

-- Two packets of one protocol between the same ends.
abbrev pub Between : Packet → Packet → Type 0
Between p q =
    (q.protocol ≡ p.protocol)
    × (((q.src ≡ p.src) × (q.dst ≡ p.dst)) ⊎ ((q.src ≡ p.dst) × (q.dst ≡ p.src)))

tuple_of : String → String → String → String
tuple_of protocol a b =
    if text_lt b a
    then concat (protocol ∷ ":" ∷ b ∷ "<->" ∷ a ∷ [])
    else concat (protocol ∷ ":" ∷ a ∷ "<->" ∷ b ∷ [])
