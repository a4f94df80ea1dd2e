-- ===== src/Qpow.antt =====
-- The proof-of-work pallet (pallets/qpow/src/lib.rs): its storage, the retargeting of the distance
-- threshold, the ring buffer of block times, the hooks and the entry points for nonces.
pub mod Types
pub mod Threshold
pub mod History
pub mod Hooks
pub mod Bounds
pub mod Motion
pub mod Block
pub mod Finalize
pub mod Times
pub mod Window
mod Tests
pub mod Period
pub mod Nonces
