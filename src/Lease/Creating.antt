-- ===== src/Lease/Creating.antt =====
-- A creation gets ports that nobody else has.
use gametrace.Prelude.{
  ℕ, String, sym, subst, Bool, List, Option, none, some, arith, ℕ_discrete, leb, inl, inr,
  Bool-cases,
}
use gametrace.Prelude.Map.{insert}
use gametrace.Lease.Ports.{PortRange, allocate, release}
use gametrace.Lease.Allocation.{Outcome, allocate-Outcome}
use gametrace.Lease.Service.{
  Creation, Service, allocate_agent_port, create_begin, count_leases, max_leases_per_owner,
}
use gametrace.Lease.Holding.{Holding}
use gametrace.Lease.Holders.{Holding-begin}
use gametrace.Lease.AgentPorts.{
  AgentPort, AgentPort-allocate_agent_port, Agent-begin, Agent-returned,
}
use gametrace.Lease.Safety.{Safe, by_ctrl}

begun-Safe :
    (call : ℕ) (owner device : String) (s : Service) (a : ℕ × Bool × PortRange)
    (o : Option (ℕ × PortRange))
    → AgentPort s a
    → Outcome s.ctrl_ports o
    → Safe s
    → Safe (elim o as (λ _. Service) [
      | none ↦ record s { agent_ports = release a.0 a.2 }
      | some (ctrl, ctrls) ↦ record s {
        agent_ports = a.2;
        ctrl_ports = ctrls;
        creating =
            insert ℕ_discrete call
              (record {
                owner = owner;
                device = device;
                agent_port = a.0;
                ctrl_port = ctrl;
                sticky = a.1;
              })
              s.creating;
      }
    ])
unfolding Outcome release
begun-Safe call owner device s (agent, sticky, agents) none port g h =
    let (held_back, range) = Agent-returned s agent sticky agents h.agent h.agent_range port in
    record {
      ctrl = h.ctrl;
      agent = held_back;
      ctrl_range = h.ctrl_range;
      agent_range = record { nonempty = range.nonempty; turned = range.turned };
      few = h.few;
    }
begun-Safe call owner device s (agent, sticky, agents) (some (ctrl, ctrls)) port g h =
    let c : Creation = record {
      owner = owner;
      device = device;
      agent_port = agent;
      ctrl_port = ctrl;
      sticky = sticky;
    } in
    let (held_now, range) = Agent-begin s call c sticky agents h.agent h.agent_range port in
    let ctrl_now =
      Holding-begin _ _ s.leases s.creating s.ctrl_ports.used call c ctrl h.ctrl g.was_free
        (λ q e. ground arith) in
    record {
      ctrl =
          subst (λ (l : List ℕ). Holding (by_ctrl s.leases (insert ℕ_discrete call c s.creating)) l)
            (sym g.marked) ctrl_now;
      agent = held_now;
      ctrl_range = g.still;
      agent_range = range;
      few = h.few;
    }

pub create_begin-Safe :
    (call : ℕ) (owner device : String) (no_sticky : Bool) (s : Service)
    → Safe s
    → Safe (create_begin call owner device no_sticky s)
unfolding create_begin
create_begin-Safe call owner device no_sticky s h =
    let port = AgentPort-allocate_agent_port owner device no_sticky s h.agent_range in
    let begun_safe =
      begun-Safe call owner device s (allocate_agent_port owner device no_sticky s)
        (allocate s.ctrl_ports) port (allocate-Outcome s.ctrl_ports h.ctrl_range) h in
    elim (Bool-cases (leb max_leases_per_owner (count_leases owner s.leases))) [
      | inl over ↦ rw over h
      | inr room ↦ rw room begun_safe
    ]
