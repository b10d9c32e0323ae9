-- ===== src/Search.antt =====
-- The search over models of modelsearch/: its space of candidates, the run and its ranking, and the
-- efficient frontier. See each child's header.
pub mod Pareto
pub mod Frontier
pub mod Space
pub mod Expansion
pub mod Rows
pub mod Evaluate
pub mod Run
pub mod Save
pub mod Saving
pub mod Ensemble
pub mod Record
pub mod Outcome
pub mod Scores
pub mod Tracked
pub mod Ranking
pub mod Settled
pub mod Ranks
mod Tests
