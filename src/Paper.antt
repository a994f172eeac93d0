-- ===== src/Paper.antt =====
-- The paper-trading loop, trader/paper.
pub mod Store
pub mod Idempotency
pub mod Ledger
pub mod World
pub mod Reconcile
pub mod Guardian
pub mod Fixture
pub mod Signals
pub mod Bars
pub mod Entry
pub mod Crypto
