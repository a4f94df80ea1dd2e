-- ===== src/HeaviestChain.antt =====
-- The selection of the heaviest chain and its finalization
-- (client/consensus/qpow/src/chain_management.rs).
pub mod Client
pub mod Ancestor
pub mod Select
pub mod Finality
mod Tests
