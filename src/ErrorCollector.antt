-- ===== src/ErrorCollector.antt =====
-- pkg/decode/errorcol.go: the failures of a decoder, gathered into a bounded number of kinds.
-- `Template` has the text that makes two failures one kind, `Collector` the table, `Bounds`, `Tally` and
-- `Listing` what the table and its list hold, and `Stamps` and `Ranking` the order of the list.
pub mod Template
pub mod Collector
pub mod Bounds
pub mod Tally
pub mod Listing
pub mod Stamps
pub mod Ranking
mod Tests
