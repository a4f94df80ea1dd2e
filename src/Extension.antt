-- ===== src/Extension.antt =====
-- The extension that checks each signed transaction for reversible accounts
-- (runtime/src/transaction_extensions.rs).
pub mod Validate
pub mod Policy
mod Tests
