-- ===== src/Lease/Service.antt =====
-- The lease operations of cmd/gt-pipeline/proxy_lease.go, cut where the code gives up leaseMu, so that
-- other calls can come between. `creating` and `starting` are the calls that are on their way, by a
-- number for each, with what they hold in their variables. What agents, sockets and sessions do is the
-- choice between the steps that go on and those that roll back. Two cuts are left out: CreateProxyLease
-- gives the lock up between its first check of the quota and the choice of its ports, and reclaimLease
-- gives back the ports, under locks of their own, after the lock. CleanupProxyLeases is not modelled.
use gametrace.Prelude.{
  ℕ, suc, String, Bool, true, false, not, ◌||◌, List, [], ◌∷◌, Option, none, some, test, ltb, leb,
  length, select, if◌then◌else◌, ℕ_discrete,
}
use gametrace.Prelude.Map.{Map, lookup, insert, delete}
use gametrace.Prelude.Text.{text_dec, concat}
use gametrace.Rule.Issue.{is_empty}
use gametrace.Lease.Ports.{PortRange, new_port_range, allocate, reserve, release}

-- An empty session is an idle lease; a gRPC port of 0 is none.
pub record ProxyLease : Type 0 where
  pub owner : String
  pub device : String
  pub agent_port : ℕ
  pub ctrl_port : ℕ
  pub grpc_port : ℕ
  pub sticky : Bool
  pub session : String
  pub capture_count : ℕ

-- The variables of a CreateProxyLease and of a StartLeaseCapture.
pub record Creation : Type 0 where
  pub owner : String
  pub device : String
  pub agent_port : ℕ
  pub ctrl_port : ℕ
  pub sticky : Bool

pub record Start : Type 0 where
  pub lease : String
  pub grpc_port : ℕ

pub record Service : Type 0 where
  pub leases : Map String ProxyLease
  pub agent_ports : PortRange
  pub grpc_ports : PortRange
  pub ctrl_ports : PortRange
  pub sticky_ports : Map String ℕ
  pub creating : Map ℕ Creation
  pub starting : Map ℕ Start

abbrev pub max_leases_per_owner : ℕ
max_leases_per_owner = 5

abbrev pub new_service : Service
new_service = record {
  leases = [];
  agent_ports = new_port_range 12100 12199;
  grpc_ports = new_port_range 19100 19199;
  ctrl_ports = new_port_range 19500 19599;
  sticky_ports = [];
  creating = [];
  starting = [];
}

abbrev pub sticky_key : String → String → String
sticky_key owner device = concat (owner ∷ "|" ∷ device ∷ [])

abbrev pub is_owned : String → String × ProxyLease → Bool
is_owned owner e = test (text_dec e.1.owner owner)

-- countLeasesLocked
unfoldable pub count_leases : String → Map String ProxyLease → ℕ
count_leases owner ls = length (select (is_owned owner) ls)

-- The end of allocateAgentPortLocked: an exhausted range gives the port 0.
unfoldable pub next_agent_port : PortRange → ℕ × Bool × PortRange
next_agent_port pr = elim (allocate pr) [
  | none ↦ (0, false, pr)
  | some (p, next) ↦ (p, false, next)
]

-- allocateAgentPortLocked: the port, whether it is the remembered one, and the range.
unfoldable pub allocate_agent_port : String → String → Bool → Service → ℕ × Bool × PortRange
allocate_agent_port owner device no_sticky s =
    if no_sticky
    then next_agent_port s.agent_ports
    else elim (lookup text_dec (sticky_key owner device) s.sticky_ports) [
      | none ↦ next_agent_port s.agent_ports
      | some p ↦ elim (reserve p s.agent_ports) [
        | none ↦ next_agent_port s.agent_ports
        | some next ↦ (p, true, next)
      ]
    ]

-- CreateProxyLease until it probes the ports: the two checks and the two ports. An error return leaves
-- no call on its way; it gives the agent port back.
unfoldable pub create_begin : ℕ → String → String → Bool → Service → Service
create_begin call owner device no_sticky s =
    let (agent, sticky, agents) = allocate_agent_port owner device no_sticky s in
    if leb max_leases_per_owner (count_leases owner s.leases)
    then s
    else elim (allocate s.ctrl_ports) [
      | none ↦ record s { agent_ports = release agent agents }
      | some (ctrl, ctrls) ↦
          let c : Creation = record {
            owner = owner;
            device = device;
            agent_port = agent;
            ctrl_port = ctrl;
            sticky = sticky;
          } in
          record s {
            agent_ports = agents;
            ctrl_ports = ctrls;
            creating = insert ℕ_discrete call c s.creating;
          }
    ]

-- releasePorts, and the error return behind it.
unfoldable pub create_fail : ℕ → Creation → Service → Service
create_fail call c s = record s {
  agent_ports = release c.agent_port s.agent_ports;
  ctrl_ports = release c.ctrl_port s.ctrl_ports;
  creating = delete ℕ_discrete call s.creating;
}

abbrev pub lease_of : Creation → ProxyLease
lease_of c = record {
  owner = c.owner;
  device = c.device;
  agent_port = c.agent_port;
  ctrl_port = c.ctrl_port;
  grpc_port = 0;
  sticky = c.sticky;
  session = "";
  capture_count = 0;
}

-- The end of CreateProxyLease: the check once more, and the lease in the table.
unfoldable pub create_commit : ℕ → String → Creation → Service → Service
create_commit call id c s =
    if leb max_leases_per_owner (count_leases c.owner s.leases)
    then create_fail call c s
    else record s {
      leases = insert text_dec id (lease_of c) s.leases;
      sticky_ports =
          if is_empty c.device
          then s.sticky_ports
          else insert text_dec (sticky_key c.owner c.device) c.agent_port s.sticky_ports;
      creating = delete ℕ_discrete call s.creating;
    }

-- StartLeaseCapture until it probes its port; `running` is what the agent's process says. An error
-- return changes nothing.
unfoldable pub start_begin : ℕ → String → Bool → Service → Service
start_begin call id running s = elim (lookup text_dec id s.leases) [
  | none ↦ s
  | some l ↦ if not (is_empty l.session) || not running then s else elim (allocate s.grpc_ports) [
    | none ↦ s
    | some (p, next) ↦ record s {
      grpc_ports = next;
      starting = insert ℕ_discrete call (record { lease = id; grpc_port = p }) s.starting;
    }
  ]
]

-- rollback, and the error return behind it.
unfoldable pub start_fail : ℕ → Start → Service → Service
start_fail call r s = record s {
  grpc_ports = release r.grpc_port s.grpc_ports;
  starting = delete ℕ_discrete call s.starting;
}

-- The end of StartLeaseCapture. It writes through its pointer: to the lease in the table, or, if that
-- has been reclaimed, to one that nothing else sees.
unfoldable pub start_commit : ℕ → Start → String → Service → Service
start_commit call r session s =
    let done : Service = record s { starting = delete ℕ_discrete call s.starting } in
    elim (lookup text_dec r.lease s.leases) [
      | none ↦ done
      | some l ↦ record done {
        leases =
            insert text_dec r.lease
              (record l {
                session = session;
                grpc_port = r.grpc_port;
                capture_count = suc l.capture_count;
              })
              s.leases;
      }
    ]

-- clearLeaseCapture on the lease that has the session; which one that is, if there are several, is up
-- to the order of the map.
unfoldable pub clear_lease_capture : String → ProxyLease → Service → Service
clear_lease_capture id l s = record s {
  leases = insert text_dec id (record l { session = ""; grpc_port = 0 }) s.leases;
  grpc_ports = release l.grpc_port s.grpc_ports;
}

-- reclaimLease
unfoldable pub reclaim_lease : String → Service → Service
reclaim_lease id s = elim (lookup text_dec id s.leases) [
  | none ↦ s
  | some l ↦ record s {
    leases = delete text_dec id s.leases;
    agent_ports = release l.agent_port s.agent_ports;
    ctrl_ports = release l.ctrl_port s.ctrl_ports;
    grpc_ports = if ltb 0 l.grpc_port then release l.grpc_port s.grpc_ports else s.grpc_ports;
  }
]

-- getLeaseForOwner: other owners' leases are not found.
unfoldable pub get_lease_for_owner : String → Bool → String → Service → Option ProxyLease
get_lease_for_owner caller is_admin id s = elim (lookup text_dec id s.leases) [
  | none ↦ none
  | some l ↦
      if is_admin then some l else if not (test (text_dec l.owner caller)) then none else some l
]

-- The loop of ListProxyLeases, on the leases in the order of the map.
abbrev pub is_listed : String → Bool → String × ProxyLease → Bool
is_listed caller is_admin e =
    if is_admin
    then true
    else if is_empty caller
    then is_empty e.1.owner
    else is_empty e.1.owner || test (text_dec e.1.owner caller)

unfoldable pub list_proxy_leases : String → Bool → Service → List (String × ProxyLease)
list_proxy_leases caller is_admin s = select (is_listed caller is_admin) s.leases
