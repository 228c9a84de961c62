-- ===== src/Payload.antt =====
-- Payload pools: ddspipe_core/efficiency/payload.
pub mod Memory
pub mod Pool
pub mod Holders
pub mod Fast
mod Tests
