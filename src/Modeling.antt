-- ===== src/Modeling.antt =====
-- The targets that the models of modeling/ are trained for.
pub mod Targets
pub mod Labels
pub mod Build
pub mod Forward
pub mod Decisions
pub mod Tests
