-- ===== src/Packets.antt =====
-- kymux-types/src/data.rs, input.rs and metrics.rs: packets with a length prefix.
pub mod Data
pub mod Input
pub mod Metrics
