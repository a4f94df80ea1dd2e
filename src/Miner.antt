-- ===== src/Miner.antt =====
-- The external miner (external-miner/src/lib.rs, resonance-miner-api/src/lib.rs).
pub mod Job
pub mod Service
pub mod Search
pub mod Requests
pub mod Rounds
pub mod Reach
pub mod Kept
mod Tests
