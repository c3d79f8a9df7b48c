-- ===== src/Lease.antt =====
-- cmd/gt-pipeline/proxy_lease.go: the proxies that phones send their traffic through, and the captures
-- that they carry. `Ports` and `Service` have the code. `Allocation` is about port ranges, `Holding`,
-- `Holders` and `AgentPorts` about who has a port, `Quota` about the leases of an owner; `Safety`,
-- `Creating` and `Captures` have what each operation keeps, `Reach` what all of them keep together,
-- and `Gaps` what they do not promise.
pub mod Ports
pub mod Allocation
pub mod Service
pub mod Holding
pub mod Holders
pub mod Quota
pub mod AgentPorts
pub mod Safety
pub mod Captures
pub mod Creating
pub mod Reach
pub mod Gaps
mod Tests
