-- ===== src/Feed.antt =====
-- The weekly signals: signalfeed (gate.py, sizing.py, delivery.py, services.py, and the rows of models.py).
pub mod Dates
pub mod Rows
pub mod Gate
pub mod Sizing
pub mod Recap
pub mod HitRate
pub mod Figures
pub mod Signals
pub mod Sending
pub mod Stored
pub mod Recorded
pub mod Delivery
pub mod Counts
mod Tests
