-- ===== src/Faucet.antt =====
-- The faucet (pallets/faucet/src/lib.rs and node/src/faucet.rs).
pub mod Mint
pub mod Bounded
pub mod Rpc
pub mod Requested
mod Tests
