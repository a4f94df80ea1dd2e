-- ===== src/Signature.antt =====
-- Signatures of transactions (dilithium-crypto/src).
pub mod Bytes
pub mod Scheme
pub mod Pair
pub mod Parsing
pub mod Authorised
pub mod Signing
pub mod Tests
