-- ===== src/Framing.antt =====
-- sdk/framing/framing.go: TCP reassembly for decoders. `Flow` has the buffer of one directional
-- stream, `Reassembler` the flows and their keys. `Draining` and `Termination` are about the loop over
-- parked segments, `Delivery` about one stream, `Refinement`, `Consuming` and `Reopening` about flows.
pub mod Flow
pub mod Slice
pub mod Coverage
pub mod Draining
pub mod Termination
pub mod Delivery
pub mod FlowKey
pub mod Reassembler
pub mod Isolation
pub mod Refinement
pub mod Consuming
pub mod Reopening
mod Tests
