-- ===== src/Risk.antt =====
-- modules/risk: the score of a transaction's risk, from weighted rules.
pub mod Ratio
pub mod Rules
pub mod Engine
pub mod Scores
mod Tests
