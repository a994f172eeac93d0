-- ===== src/Backtest.antt =====
-- The backtest harness, trader/backtest: cost model, exit rules and metrics.
pub mod Config
pub mod Fills
pub mod Exits
pub mod Iterator
pub mod Metrics
