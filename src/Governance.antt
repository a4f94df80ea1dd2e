-- ===== src/Governance.antt =====
-- The governance of the runtime: deposits for preimages, the tracks of referenda, and the origins
-- that may act for the collective (runtime/src/governance.rs).
pub mod Tracks
pub mod Known
pub mod Deposit
pub mod Returned
mod Tests
