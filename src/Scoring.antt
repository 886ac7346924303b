-- ===== src/Scoring.antt =====
-- internal/scoring: scores of submissions and of tasks.
pub mod Modes
pub mod Icpc
pub mod ScoreTypes
pub mod Verdict
mod Tests
