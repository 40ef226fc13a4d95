-- ===== src/Tests.antt =====
-- Runs at concrete inputs, and the conditions of the theorems met there.
pub mod Codec
pub mod Merkle
pub mod Overlay
pub mod Ledger
pub mod Clock
pub mod Batches
pub mod Rules
pub mod Pool
pub mod Limiter
pub mod Rollups
pub mod Conflicts
