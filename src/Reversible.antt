-- ===== src/Reversible.antt =====
-- The pallet that delays transfers, which can be cancelled until they are executed
-- (pallets/reversible-transfers/src/lib.rs).
pub mod Types
pub mod Calls
pub mod Writes
pub mod Effects
pub mod Scheduling
pub mod Layered
pub mod Weights
pub mod Ledger
pub mod Removal
pub mod Growth
pub mod Balanced
pub mod Owner
pub mod Stuck
pub mod Example
mod Tests
