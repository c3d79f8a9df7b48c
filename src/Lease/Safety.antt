-- ===== src/Lease/Safety.antt =====
-- What the lease operations keep: no two leases share a port. Here are the ends of a creation and of a
-- lease.
use gametrace.Prelude.{
  ℕ, zero, suc, ◌≤◌, String, ◌≡◌, ◌≢◌, refl, [], Option, some, arith, ℕ_discrete, leb, inl, inr,
  ◌⊎◌, Bool-cases, Option-cases,
}
use gametrace.Prelude.Map.{Map, lookup, delete}
use gametrace.Prelude.Text.{text_dec}
use gametrace.Lease.Ports.{PortRange, release}
use gametrace.Lease.Allocation.{IsRange}
use gametrace.Lease.Service.{
  ProxyLease, Creation, Service, new_service, lease_of, create_fail, create_commit, reclaim_lease,
  count_leases, max_leases_per_owner,
}
use gametrace.Lease.Holding.{Holding}
use gametrace.Lease.Holders.{
  Holding-empty, Holder, held, Holding-fail, Holding-reclaim, Holding-commit,
}
use gametrace.Lease.Quota.{count_leases-delete-le, count_leases-insert-le}
use gametrace.Lease.AgentPorts.{nonzero, by_agent, by_agent-nonzero}

abbrev pub by_ctrl : Map String ProxyLease → Map ℕ Creation → Holder → Option ℕ
by_ctrl = held (λ l. some l.ctrl_port) (λ c. some c.ctrl_port)

-- No two leases, nor two creations on their way, share a control port or an agent port other than 0;
-- the ports that they have are marked as used; no owner has more leases than it may.
pub record Safe (s : Service) : Type 0 where
  pub ctrl : Holding (by_ctrl s.leases s.creating) s.ctrl_ports.used
  pub agent : Holding (by_agent s.leases s.creating) s.agent_ports.used
  pub ctrl_range : IsRange s.ctrl_ports
  pub agent_range : IsRange s.agent_ports
  pub few : (owner : String) → count_leases owner s.leases ≤ max_leases_per_owner

pub new_service-Safe : Safe new_service
unfolding count_leases
new_service-Safe = record {
  ctrl = Holding-empty _ _ [];
  agent = Holding-empty _ _ [];
  ctrl_range = record { nonempty = omega arith; turned = omega arith };
  agent_range = record { nonempty = omega arith; turned = omega arith };
  few = λ owner. omega arith;
}

-- A port is its holder's own, or it is 0 and nobody's.
pub its_own :
    (p : ℕ) (s : Service)
    → (nonzero p ≡ some p)
      ⊎ ((h : Holder) (q : ℕ) → by_agent s.leases s.creating h ≡ some q → q ≢ p)
its_own zero s = inr (λ h q e. by_agent-nonzero s.leases s.creating h q e)
its_own (suc p) s = inl refl

pub create_fail-Safe :
    (call : ℕ) (c : Creation) (s : Service)
    → lookup ℕ_discrete call s.creating ≡ some c
    → Safe s
    → Safe (create_fail call c s)
unfolding create_fail release
create_fail-Safe call c s found h = record {
  ctrl =
      Holding-fail _ _ s.leases s.creating s.ctrl_ports.used call c c.ctrl_port found (inl refl)
        h.ctrl;
  agent =
      Holding-fail _ _ s.leases s.creating s.agent_ports.used call c c.agent_port found
        (its_own c.agent_port s) h.agent;
  ctrl_range = record { nonempty = h.ctrl_range.nonempty; turned = h.ctrl_range.turned };
  agent_range = record { nonempty = h.agent_range.nonempty; turned = h.agent_range.turned };
  few = h.few;
}

reclaimed-Safe :
    (id : String) (l : ProxyLease) (grpc : PortRange) (s : Service)
    → lookup text_dec id s.leases ≡ some l
    → Safe s
    → Safe (record s {
      leases = delete text_dec id s.leases;
      agent_ports = release l.agent_port s.agent_ports;
      ctrl_ports = release l.ctrl_port s.ctrl_ports;
      grpc_ports = grpc;
    })
unfolding release
reclaimed-Safe id l grpc s found h = record {
  ctrl =
      Holding-reclaim _ _ s.leases s.creating s.ctrl_ports.used id l l.ctrl_port found (inl refl)
        h.ctrl;
  agent =
      Holding-reclaim _ _ s.leases s.creating s.agent_ports.used id l l.agent_port found
        (its_own l.agent_port s) h.agent;
  ctrl_range = record { nonempty = h.ctrl_range.nonempty; turned = h.ctrl_range.turned };
  agent_range = record { nonempty = h.agent_range.nonempty; turned = h.agent_range.turned };
  few = λ owner. omega (arith, h.few owner, count_leases-delete-le owner id s.leases);
}

pub reclaim_lease-Safe : (id : String) (s : Service) → Safe s → Safe (reclaim_lease id s)
unfolding reclaim_lease
reclaim_lease-Safe id s h = elim (Option-cases (lookup text_dec id s.leases)) [
  | inl e ↦ rw (reclaim_lease, e) h
  | inr (l, e) ↦ rw (reclaim_lease, e) (reclaimed-Safe id l _ s e h)
]

pub create_commit-Safe :
    (call : ℕ) (id : String) (c : Creation) (s : Service)
    → lookup ℕ_discrete call s.creating ≡ some c
    → Safe s
    → Safe (create_commit call id c s)
unfolding create_commit
create_commit-Safe call id c s found h =
    elim (Bool-cases (leb max_leases_per_owner (count_leases c.owner s.leases))) [
      | inl over ↦ rw over (create_fail-Safe call c s found h)
      | inr room ↦ rw room (record {
        ctrl = Holding-commit _ _ s.leases s.creating s.ctrl_ports.used call id c found refl h.ctrl;
        agent =
            Holding-commit _ _ s.leases s.creating s.agent_ports.used call id c found refl h.agent;
        ctrl_range = h.ctrl_range;
        agent_range = h.agent_range;
        few = λ owner.
            ground (arith, h.few owner, count_leases-insert-le owner id (lease_of c) s.leases);
      })
    ]
