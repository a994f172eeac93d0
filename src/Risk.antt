-- ===== src/Risk.antt =====
-- The account's risk rules, trader/risk.
pub mod Config
pub mod Breakers
pub mod Sizer
pub mod Gate
