-- ===== src/Spool.antt =====
-- pkg/spool: the disk queue of packets that an agent has captured and not yet delivered. `Frame` is the
-- layout of a record in a segment file and its recovery, `Queue` the queue's operations, `Retention` the
-- removal of old segments.
pub mod Frame
pub mod Recovery
pub mod Queue
pub mod Retention
pub mod Hazards
pub mod Counts
pub mod Tests
pub mod Delivery
pub mod Fifo
pub mod Growth
pub mod Writing
pub mod Confirming
