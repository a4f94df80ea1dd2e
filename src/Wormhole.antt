-- ===== src/Wormhole.antt =====
-- The pallet that mints on a zero-knowledge proof (pallets/wormhole/src/lib.rs).
pub mod Inputs
pub mod Calls
pub mod Panics
pub mod Fields
pub mod Mints
pub mod Once
mod Tests
