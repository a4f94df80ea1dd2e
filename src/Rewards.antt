-- ===== src/Rewards.antt =====
-- The pallet that pays the miners (pallets/mining-rewards/src/lib.rs).
pub mod Payout
pub mod Supply
mod Tests
