-- ===== src/Lease/Captures.antt =====
-- Captures come and go, and the leases keep their ports.
use gametrace.Prelude.{
  ℕ, suc, String, ◌≡◌, refl, ap, Bool, not, ◌||◌, Option, none, some, arith, ℕ_discrete, inl, inr,
  Bool-cases, Option-cases,
}
use gametrace.Prelude.Map.{Map, lookup, insert}
use gametrace.Prelude.Text.{text_dec}
use gametrace.Lease.Ports.{PortRange, allocate, release}
use gametrace.Lease.Service.{
  ProxyLease, Start, Service, start_begin, start_fail, start_commit, clear_lease_capture,
}
use gametrace.Lease.Holders.{Holding-change}
use gametrace.Rule.Issue.{is_empty}
use gametrace.Lease.Quota.{count_leases-change-le}
use gametrace.Lease.AgentPorts.{nonzero}
use gametrace.Lease.Safety.{Safe}

-- A change of a lease that keeps its owner and its ports.
change-Safe :
    (id : String) (l k : ProxyLease) (s : Service)
    → lookup text_dec id s.leases ≡ some l
    → k.owner ≡ l.owner
    → k.agent_port ≡ l.agent_port
    → k.ctrl_port ≡ l.ctrl_port
    → Safe s
    → Safe (record s { leases = insert text_dec id k s.leases })
change-Safe id l k s found o a c h = record {
  ctrl = Holding-change _ _ s.leases s.creating s.ctrl_ports.used id l k found (ap some c) h.ctrl;
  agent =
      Holding-change _ _ s.leases s.creating s.agent_ports.used id l k found (ap nonzero a) h.agent;
  ctrl_range = h.ctrl_range;
  agent_range = h.agent_range;
  few = λ owner. omega (arith, h.few owner, count_leases-change-le owner id l k s.leases found o);
}

-- What the captures hold does not matter here.
aside-Safe :
    (s : Service) (grpc : PortRange) (starting : Map ℕ Start)
    → Safe s
    → Safe (record s { grpc_ports = grpc; starting = starting })
aside-Safe s grpc starting h = record {
  ctrl = h.ctrl;
  agent = h.agent;
  ctrl_range = h.ctrl_range;
  agent_range = h.agent_range;
  few = h.few;
}

started-Safe :
    (call : ℕ) (id : String) (s : Service) (o : Option (ℕ × PortRange))
    → Safe s
    → Safe (elim o as (λ _. Service) [
      | none ↦ s
      | some (p, next) ↦ record s {
        grpc_ports = next;
        starting = insert ℕ_discrete call (record { lease = id; grpc_port = p }) s.starting;
      }
    ])
started-Safe call id s none h = h
started-Safe call id s (some (p, next)) h = aside-Safe s next _ h

pub start_begin-Safe :
    (call : ℕ) (id : String) (running : Bool) (s : Service)
    → Safe s
    → Safe (start_begin call id running s)
unfolding start_begin
start_begin-Safe call id running s h = elim (Option-cases (lookup text_dec id s.leases)) [
  | inl e ↦ rw (start_begin, e) h
  | inr (l, e) ↦
      rw (start_begin, e)
        (elim (Bool-cases (not (is_empty l.session) || not running)) [
          | inl refused ↦ rw refused h
          | inr free ↦ rw free (started-Safe call id s (allocate s.grpc_ports) h)
        ])
]

pub start_fail-Safe : (call : ℕ) (r : Start) (s : Service) → Safe s → Safe (start_fail call r s)
unfolding start_fail
start_fail-Safe call r s h = aside-Safe s _ _ h

pub start_commit-Safe :
    (call : ℕ) (r : Start) (session : String) (s : Service)
    → Safe s
    → Safe (start_commit call r session s)
unfolding start_commit
start_commit-Safe call r session s h = elim (Option-cases (lookup text_dec r.lease s.leases)) [
  | inl e ↦ rw (start_commit, e) (aside-Safe s _ _ h)
  | inr (l, e) ↦
      let k : ProxyLease = record l {
        session = session;
        grpc_port = r.grpc_port;
        capture_count = suc l.capture_count;
      } in
      rw (start_commit, e)
        (aside-Safe (record s { leases = insert text_dec r.lease k s.leases }) s.grpc_ports _
          (change-Safe r.lease l k s e refl refl refl h))
]

pub clear_lease_capture-Safe :
    (id : String) (l : ProxyLease) (s : Service)
    → lookup text_dec id s.leases ≡ some l
    → Safe s
    → Safe (clear_lease_capture id l s)
unfolding clear_lease_capture
clear_lease_capture-Safe id l s found h =
    let k : ProxyLease = record l { session = ""; grpc_port = 0 } in
    aside-Safe (record s { leases = insert text_dec id k s.leases })
      (release l.grpc_port s.grpc_ports) s.starting (change-Safe id l k s found refl refl refl h)
