-- ===== src/Ledger.antt =====
-- The data that trading reads and writes: strategies/signals.py, marketdata/models.py (PriceBar),
-- portfolio/models.py, execution/models.py and risk/models.py, with the queries over them.
-- Money and prices are counted in ticks of 0.0001, percentages in hundredths of a percent, moments
-- and days by number. A row of a table is known by its number.
mod Rows
mod Queries
pub mod Positions
pub mod Filing
pub mod Samples
pub use Rows.*
unfoldable pub use Queries.*
