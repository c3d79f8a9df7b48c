-- ===== src/Framing/FlowKey.antt =====
-- FlowKey of sdk/framing/framing.go, the key of one directional stream.
use gametrace.Prelude.{
  ℕ, String, ◌≡◌, Bool, true, false, not, ◌&&◌, [], ◌∷◌, Option, none, some, if◌then◌else◌,
  ℕ_discrete, test, Bool-cases, inl, inr,
}
use gametrace.Prelude.Text.{text_dec, text_lt, text_lt-asymm, text_lt-total, concat}

-- netip.AddrPort: the zero value has no address.
pub record AddrPort : Type 0 where
  pub addr : Option String
  pub port : ℕ

pub record FlowKey : Type 0 where
  pub src : AddrPort
  pub dst : AddrPort
  pub protocol : String

pub AddrPort-discrete : Discrete AddrPort
AddrPort-discrete = hlevel (text_dec, ℕ_discrete)

unfoldable pub FlowKey-discrete : Discrete FlowKey
FlowKey-discrete = hlevel (text_dec, ℕ_discrete)

abbrev pub zero_addr : AddrPort
zero_addr = record { addr = none; port = 0 }

-- FlowKey{}
abbrev pub no_flow : FlowKey
no_flow = record { src = zero_addr; dst = zero_addr; protocol = "" }

unfoldable pub reverse : FlowKey → FlowKey
reverse f = record { src = f.dst; dst = f.src; protocol = f.protocol }

abbrev pub is_valid : AddrPort → Bool
is_valid a = elim a.addr [ none ↦ false | some _ ↦ true ]

-- The text of an address is the standard library's; the rest of the two renderings is the source's.
module _ (render : AddrPort → String) where
  -- FlowKey.String
  pub flow_text : FlowKey → String
  flow_text f =
      if test (text_dec f.protocol "") && not (is_valid f.src) && not (is_valid f.dst)
      then "-"
      else concat (f.protocol ∷ " " ∷ render f.src ∷ ">" ∷ render f.dst ∷ [])

  ordered : String → String → String → String
  ordered protocol a b = concat (protocol ∷ " " ∷ a ∷ "=" ∷ b ∷ [])

  pub canonical : FlowKey → String
  unfolding ordered
  canonical f =
      let a = render f.src in
      let b = render f.dst in if text_lt b a then ordered f.protocol b a else ordered f.protocol a b

  -- Both directions of a conversation have one canonical text.
  pub canonical-reverse : (f : FlowKey) → canonical (reverse f) ≡ canonical f
  unfolding canonical reverse
  canonical-reverse f = elim (Bool-cases (text_lt (render f.dst) (render f.src))) [
    | inl lt ↦ rw (lt, text_lt-asymm (render f.dst) (render f.src) lt)
    | inr ge ↦ elim (Bool-cases (text_lt (render f.src) (render f.dst))) [
      | inl lt ↦ rw (ge, lt)
      | inr eq ↦ rw (ge, eq, text_lt-total (render f.dst) (render f.src) ge eq)
    ]
  ]
