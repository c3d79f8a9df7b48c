-- ===== src/Baseline.antt =====
-- The baselines of entities of pkg/state/baseline.go, with the values and the state changes of pkg/event.
pub mod Value
pub mod Changes
pub mod Store
pub mod Manager
pub mod Apply
pub mod Sorting
pub mod Eviction
pub mod Replay
pub mod Writing
pub mod Sharing
pub mod Applied
pub mod Accounts
pub mod Ready
mod Tests
