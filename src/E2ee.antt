-- ===== src/E2ee.antt =====
-- e2ee/: the vault of client-side encryption.
pub mod Secret
pub mod Params
pub mod Statements
pub mod Vaults
pub mod Writes
pub mod Swap
pub mod Stale
pub mod Enrol
pub mod Decoy
mod Tests
