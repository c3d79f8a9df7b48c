-- ===== src/Conn.antt =====
-- cmd/gt-pipeline/conn_tracker.go: which connection a packet belongs to. `Tracker` has the code,
-- `Bounds` the size of its table, `Generations` and `History` the identifiers that it hands out, and
-- `Directions` what the two ends of one connection are given.
pub mod Tracker
pub mod Bounds
pub mod Generations
pub mod History
pub mod Directions
mod Tests
