-- ===== src/Tournament.antt =====
-- trader/tournament: the roster of strategies, the pipeline that moves them, the weekly judge.
pub mod Frozen
pub mod Registry
pub mod Live
pub mod Pipeline
pub mod Entrant
mod Fixture
pub mod Judge
mod Tests
