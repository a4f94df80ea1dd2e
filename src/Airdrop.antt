-- ===== src/Airdrop.antt =====
-- The pallet that pays airdrops out by Merkle proofs (pallets/merkle-airdrop/src/lib.rs).
pub mod Merkle
pub mod Calls
pub mod Claims
pub mod Once
pub mod Pool
mod Tests
pub mod Solvent
