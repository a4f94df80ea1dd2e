-- ===== src/Node.antt =====
-- The node's side of mining: the check of seals (client/consensus/qpow/src/lib.rs and miner.rs), and
-- the mining loop with the external miner (node/src/service.rs, node/src/external_miner_client.rs).
pub mod Seal
pub mod Agree
pub mod External
pub mod Mined
pub mod Loop
pub mod Found
pub mod Polling
pub mod Submitted
mod Tests
