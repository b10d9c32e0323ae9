-- ===== src/Backtest.antt =====
-- The back-test of a model, backtesting/: positions from forecasts, the trade log and the equity curve
-- of metrics.py, and the run of engine.py. See each child's header.
pub mod Positions
pub mod Trades
pub mod Replayed
pub mod Curves
pub mod Rows
pub mod Scoring
pub mod Frozen
pub mod Engine
pub mod Dates
pub mod Counts
pub mod Saved
pub mod Overlap
mod Tests
