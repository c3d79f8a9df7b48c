-- ===== src/Lease/Tests.antt =====
-- Runs of cmd/gt-pipeline/proxy_lease.go.
use gametrace.Prelude.{ℕ, ◌<◌, ◌≡◌, ◌≢◌, refl, true, false, [], ◌∷◌, none, some, arith, ℕ_discrete}
use gametrace.Prelude.Map.{lookup, insert, delete}
use gametrace.Prelude.Text.{text_dec, concat}
use gametrace.Lease.Ports.{PortRange, is_used, allocate_loop, allocate, reserve, release}
use gametrace.Lease.Allocation.{IsRange, InRange, Outcome, allocate-Outcome}
use gametrace.Lease.Service.{
  ProxyLease, Creation, Service, new_service, lease_of, next_agent_port, allocate_agent_port,
  count_leases, max_leases_per_owner, create_begin, create_commit, reclaim_lease,
}
use gametrace.Lease.Safety.{Safe}
use gametrace.Lease.Reach.{begins, commits, start, later, Reach-Safe}
use gametrace.Lease.Gaps.{create_begin_exhausted, raced, raced-loses}

abbrev pair : PortRange
pair = record { base = 10; max = 11; used = 11 ∷ []; cursor = 1 }

-- The cursor is at a used port, so the range turns to its first.
pair_allocates : allocate pair ≡ some (10, record pair { used = 10 ∷ 11 ∷ []; cursor = 1 })
unfolding allocate allocate_loop
pair_allocates = refl

pair-IsRange : IsRange pair
pair-IsRange = record { nonempty = omega arith; turned = omega arith }

allocate-Outcome_example : Outcome pair (allocate pair)
allocate-Outcome_example = allocate-Outcome pair pair-IsRange

-- A lease of one owner, and the port that its device finds again.
abbrev begun_once : Service
begun_once = create_begin 0 "ann" "phone" false new_service

abbrev first_creation : Creation
first_creation = record {
  owner = "ann";
  device = "phone";
  agent_port = 12100;
  ctrl_port = 19500;
  sticky = false;
}

first_begun : lookup ℕ_discrete 0 begun_once.creating ≡ some first_creation
unfolding create_begin allocate_agent_port next_agent_port allocate allocate_loop count_leases
    lookup insert delete text_dec ℕ_discrete
first_begun = refl

abbrev leased_once : Service
leased_once = create_commit 0 "lease_1" first_creation begun_once

-- The port is remembered for the device.
port_remembered :
    (allocate_agent_port "ann" "phone" false (reclaim_lease "lease_1" leased_once)).0 ≡ 12100
unfolding create_begin create_commit reclaim_lease release reserve allocate_agent_port
    next_agent_port allocate allocate_loop count_leases lookup insert delete text_dec ℕ_discrete
    concat
port_remembered = refl

new_call : lookup {V = Creation} ℕ_discrete 0 [] ≡ none
unfolding lookup
new_call = refl

Reach-Safe_example : Safe leased_once
Reach-Safe_example = Reach-Safe (
    later (later start (begins 0 "ann" "phone" false new_call))
      (commits 0 "lease_1" first_creation first_begun))

-- A service whose range of agent ports has one port, which is taken.
abbrev taken_up : Service
taken_up = record new_service {
  agent_ports = record { base = 10; max = 10; used = 10 ∷ []; cursor = 0 };
}

taken_up-IsRange : IsRange taken_up.agent_ports
taken_up-IsRange = record { nonempty = omega arith; turned = omega arith }

abbrev next_ctrl : PortRange
next_ctrl = record new_service.ctrl_ports { used = 19500 ∷ []; cursor = 1 }

ctrl_allocates : allocate new_service.ctrl_ports ≡ some (19500, next_ctrl)
unfolding allocate allocate_loop
ctrl_allocates = refl

ten_used : (q : ℕ) → InRange q taken_up.agent_ports → is_used q taken_up.agent_ports.used ≡ true
ten_used q h = ground arith

no_leases : count_leases "ann" [] < max_leases_per_owner
unfolding count_leases
no_leases = omega arith

create_begin_exhausted_example :
    (c : Creation) × (lookup ℕ_discrete 0 (create_begin 0 "ann" "phone" false taken_up).creating
      ≡ some c)
    × (c.agent_port ≡ 0)
create_begin_exhausted_example =
    create_begin_exhausted 0 "ann" "phone" false taken_up 19500 next_ctrl taken_up-IsRange ten_used
      no_leases ctrl_allocates

abbrev idle : Service
idle = record new_service { leases = ("lease_1", lease_of first_creation) ∷ [] }

abbrev grpc_once : PortRange
grpc_once = record new_service.grpc_ports { used = 19100 ∷ []; cursor = 1 }

abbrev grpc_twice : PortRange
grpc_twice = record new_service.grpc_ports { used = 19101 ∷ 19100 ∷ []; cursor = 2 }

grpc_allocates : allocate new_service.grpc_ports ≡ some (19100, grpc_once)
unfolding allocate allocate_loop
grpc_allocates = refl

grpc_allocates_again : allocate grpc_once ≡ some (19101, grpc_twice)
unfolding allocate allocate_loop
grpc_allocates_again = refl

idle_found : lookup text_dec "lease_1" idle.leases ≡ some (lease_of first_creation)
unfolding lookup text_dec
idle_found = refl

grpc-IsRange : IsRange idle.grpc_ports
grpc-IsRange = record { nonempty = omega arith; turned = omega arith }

raced-loses_example :
    (is_used 19100 (raced "lease_1" "s1" "s2" 1 2 19100 19101 idle).grpc_ports.used ≡ true)
    × ((k : ProxyLease) × (lookup text_dec "lease_1"
            (raced "lease_1" "s1" "s2" 1 2 19100 19101 idle).leases
          ≡ some k)
        × (k.grpc_port ≡ 19101)
        × (k.session ≡ "s2"))
    × (◌≢◌ {A = ℕ} 19100 19101)
raced-loses_example =
    raced-loses "lease_1" "s1" "s2" (lease_of first_creation) 1 2 19100 19101 grpc_once grpc_twice
      idle idle_found refl grpc-IsRange grpc_allocates grpc_allocates_again
