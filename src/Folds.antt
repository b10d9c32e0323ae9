-- ===== src/Folds.antt =====
-- Walk-forward folds: forecasting/backtesting/walkforward.py over row positions (Rows) and
-- backtesting/walkforward.py over session dates (Sessions). The loop takes fuel.
pub mod Rows
pub mod Sessions
pub mod Windows
pub mod Agreement
pub mod Embargo
pub mod Arguments
mod Tests
pub mod Split
pub mod Leak
