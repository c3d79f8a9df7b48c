-- ===== src/Lease/AgentPorts.antt =====
-- The agent port of a creation: the remembered one, a free one, or 0.
use gametrace.Prelude.{
  ℕ, zero, suc, ◌<◌, String, ◌≡◌, ◌≢◌, refl, sym, ap, subst, ◌∙◌, Bool, true, false, List, ◌∷◌,
  Option, none, some, arith, ℕ_discrete, inl, inr, ◌⊎◌,
}
use gametrace.Prelude.Map.{Map, lookup, insert}
use gametrace.Prelude.Text.{text_dec}
use gametrace.Lease.Ports.{PortRange, is_used, remove, allocate, reserve}
use gametrace.Lease.Allocation.{IsRange, Outcome, allocate-Outcome}
use gametrace.Lease.Service.{
  ProxyLease, Creation, Service, sticky_key, next_agent_port, allocate_agent_port,
}
use gametrace.Lease.Holding.{Holding, Holding-take, Holding-give}
use gametrace.Lease.Holders.{
  port_of, Holder, leased, begun, held, Holding-begin, Holding-begin_none,
}

-- The port 0 is no port.
abbrev pub nonzero : ℕ → Option ℕ
nonzero zero = none
nonzero (suc p) = some (suc p)

abbrev pub by_agent : Map String ProxyLease → Map ℕ Creation → Holder → Option ℕ
by_agent = held (λ l. nonzero l.agent_port) (λ c. nonzero c.agent_port)

nonzero-some : (p q : ℕ) → nonzero p ≡ some q → 0 < q
nonzero-some zero q e = cc e
nonzero-some (suc p) q e = ground arith

nonzero_is : (p q : ℕ) → nonzero p ≡ some q → q ≡ p
nonzero_is zero q e = cc e
nonzero_is (suc p) q e = ground arith

-- The port of a new creation was free, or it is 0 and the range is as it was.
pub AgentPort : Service → ℕ × Bool × PortRange → Type 0
AgentPort s (p, sticky, next) =
    ((p ≡ 0) × (next ≡ s.agent_ports))
    ⊎ ((is_used p s.agent_ports.used ≡ false) × (next.used ≡ p ∷ s.agent_ports.used) × IsRange next)

AgentPort-after :
    (s : Service) (o : Option (ℕ × PortRange))
    → Outcome s.agent_ports o
    → AgentPort s (elim o as (λ _. ℕ × Bool × PortRange) [
      | none ↦ (0, false, s.agent_ports)
      | some (p, next) ↦ (p, false, next)
    ])
unfolding AgentPort Outcome
AgentPort-after s none g = inl (refl, refl)
AgentPort-after s (some (p, next)) g = inr (g.was_free, g.marked, g.still)

AgentPort-next_agent_port :
    (s : Service) → IsRange s.agent_ports → AgentPort s (next_agent_port s.agent_ports)
unfolding next_agent_port
AgentPort-next_agent_port s r =
    AgentPort-after s (allocate s.agent_ports) (allocate-Outcome s.agent_ports r)

reserve_marks :
    (p : ℕ) (pr next : PortRange)
    → reserve p pr ≡ some next
    → (is_used p pr.used ≡ false) × (record pr { used = p ∷ pr.used } ≡ next)
unfolding reserve
reserve_marks p pr next e = ground arith

AgentPort-reserved :
    (s : Service) (p : ℕ) (o : Option PortRange)
    → IsRange s.agent_ports
    → reserve p s.agent_ports ≡ o
    → AgentPort s (elim o as (λ _. ℕ × Bool × PortRange) [
      | none ↦ next_agent_port s.agent_ports
      | some next ↦ (p, true, next)
    ])
unfolding AgentPort
AgentPort-reserved s p none r e = AgentPort-next_agent_port s r
AgentPort-reserved s p (some next) r e =
    let (free, same) = reserve_marks p s.agent_ports next e in
    let still : IsRange (record s.agent_ports { used = p ∷ s.agent_ports.used }) = record {
      nonempty = r.nonempty;
      turned = r.turned;
    } in
    inr (free, ap (λ (pr : PortRange). pr.used) (sym same), subst IsRange same still)

AgentPort-remembered :
    (s : Service) (o : Option ℕ)
    → IsRange s.agent_ports
    → AgentPort s (elim o as (λ _. ℕ × Bool × PortRange) [
      | none ↦ next_agent_port s.agent_ports
      | some p ↦ elim (reserve p s.agent_ports) as (λ _. ℕ × Bool × PortRange) [
        | none ↦ next_agent_port s.agent_ports
        | some next ↦ (p, true, next)
      ]
    ])
AgentPort-remembered s none r = AgentPort-next_agent_port s r
AgentPort-remembered s (some p) r = AgentPort-reserved s p (reserve p s.agent_ports) r refl

pub AgentPort-allocate_agent_port :
    (owner device : String) (no_sticky : Bool) (s : Service)
    → IsRange s.agent_ports
    → AgentPort s (allocate_agent_port owner device no_sticky s)
unfolding allocate_agent_port
AgentPort-allocate_agent_port owner device true s r = AgentPort-next_agent_port s r
AgentPort-allocate_agent_port owner device false s r =
    AgentPort-remembered s (lookup text_dec (sticky_key owner device) s.sticky_ports) r

-- The agent ports once a creation has its own.
pub Agent-begin :
    (s : Service) (call : ℕ) (c : Creation) (sticky : Bool) (next : PortRange)
    → Holding (by_agent s.leases s.creating) s.agent_ports.used
    → IsRange s.agent_ports
    → AgentPort s (c.agent_port, sticky, next)
    → Holding (by_agent s.leases (insert ℕ_discrete call c s.creating)) next.used × IsRange next
unfolding AgentPort
Agent-begin s call c sticky next h range (inl (zero_port, same)) =
    let begun_by = by_agent s.leases (insert ℕ_discrete call c s.creating) in
    (
      subst (λ (pr : PortRange). Holding begun_by pr.used) (sym same)
          (Holding-begin_none _ _ s.leases s.creating s.agent_ports.used call c h
            (ap nonzero zero_port)),
      subst IsRange (sym same) range,
    )
Agent-begin s call c sticky next h range (inr (free, marked, still)) =
    let begun_by = by_agent s.leases (insert ℕ_discrete call c s.creating) in
    (
      subst (λ (l : List ℕ). Holding begun_by l) (sym marked)
          (Holding-begin _ _ s.leases s.creating s.agent_ports.used call c c.agent_port h free
            (nonzero_is c.agent_port)),
      still,
    )

port_of-nonzero :
    {X : Type 0} (f : X → ℕ) (o : Option X) (q : ℕ)
    → port_of (λ x. nonzero (f x)) o ≡ some q
    → q ≢ 0
port_of-nonzero f none q e = absurd (cc e)
port_of-nonzero f (some x) q e = λ z. ground (arith, nonzero-some (f x) q)

pub by_agent-nonzero :
    (ls : Map String ProxyLease) (cs : Map ℕ Creation) (h : Holder) (q : ℕ)
    → by_agent ls cs h ≡ some q
    → q ≢ 0
unfolding held
by_agent-nonzero ls cs (leased id) q e =
    port_of-nonzero (λ (l : ProxyLease). l.agent_port) (lookup text_dec id ls) q e
by_agent-nonzero ls cs (begun r) q e =
    port_of-nonzero (λ (c : Creation). c.agent_port) (lookup ℕ_discrete r cs) q e

-- The agent ports once a creation has given its own back at once.
pub Agent-returned :
    (s : Service) (p : ℕ) (sticky : Bool) (next : PortRange)
    → Holding (by_agent s.leases s.creating) s.agent_ports.used
    → IsRange s.agent_ports
    → AgentPort s (p, sticky, next)
    → Holding (by_agent s.leases s.creating) (remove p next.used) × IsRange next
unfolding AgentPort
Agent-returned s p sticky next h range (inl (zero_port, same)) =
    let by = by_agent s.leases s.creating in
    let back : Holding by (remove p s.agent_ports.used) =
      Holding-give by by s.agent_ports.used p h
        (λ k q e. (e, λ z. by_agent-nonzero s.leases s.creating k q e (z ∙ zero_port))) in
    (
      subst (λ (pr : PortRange). Holding by (remove p pr.used)) (sym same) back,
      subst IsRange (sym same) range,
    )
Agent-returned s p sticky next h range (inr (free, marked, still)) =
    let by = by_agent s.leases s.creating in
    let used = s.agent_ports.used in
    let more : Holding by (p ∷ used) =
      Holding-take by by used (begun 0) p h free (λ k q e. inl e) in
    let back : Holding by (remove p (p ∷ used)) =
      Holding-give by by (p ∷ used) p more
        (λ k q e. (e, λ z. cc (free, h.marked k q e, ap (λ n. is_used n used) z))) in
    (subst (λ (l : List ℕ). Holding by (remove p l)) (sym marked) back, still)
