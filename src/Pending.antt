-- ===== src/Pending.antt =====
-- cmd/gt-pipeline/pending_decode.go, and the part of capture_task.go that uses it: the packets that
-- wait for a decoder. `Queue` has the code, `Newest` what its pushes keep, `Feeding` the code that
-- fills a decoder from it, and `Order` and `Runs` what the decoder gets.
pub mod Queue
pub mod Newest
pub mod Trims
pub mod Feeding
pub mod Order
pub mod Runs
mod Tests
