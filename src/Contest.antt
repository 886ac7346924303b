-- ===== src/Contest.antt =====
-- The package internal/contest: the rules that the web services and the CLI share.
pub mod Timing
pub mod Limits
pub mod Tokens
mod Tests
