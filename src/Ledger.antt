-- ===== src/Ledger.antt =====
-- internal/ledger: the durable publish and effect ledgers over a bbolt bucket.
pub mod Bolt
pub mod Publish
pub mod Effect
pub mod Files
pub mod Restarts
mod Tests
