-- ===== src/QpowMath.antt =====
-- The proof-of-work arithmetic (qpow-math/src/lib.rs): modular powers, coprimality, the
-- Miller-Rabin test, the search for the modulus, and the check of a nonce.
pub mod Power
pub mod Coprime
pub mod Prime
pub mod Nonce
mod Tests
