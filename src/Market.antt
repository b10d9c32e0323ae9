-- ===== src/Market.antt =====
-- The sync of price bars: marketdata/services.py. A provider's history is a parameter that may raise
-- (`none`); its bars are rows of the daily timeframe, under the instrument they are asked for.
pub mod Sync
mod Tests
use automated_stock_trading.Common.{
  ℕ, Bool, ◌&&◌, Option, none, some, List, [], ◌∷◌, ◌==◌, if◌then◌else◌, length, first,
}
use automated_stock_trading.Ledger.{PriceBar}

-- `provider.get_history(symbol, start, end)`
abbrev pub Provider : Type 0
Provider = ℕ → Option (List PriceBar)

-- The unique key of a bar, `timeframe` being daily throughout.
abbrev pub is_bar : (instrument timestamp : ℕ) → PriceBar → Bool
is_bar i t b = b.instrument == i && b.timestamp == t

-- One row of `bulk_create` with `update_conflicts`: the row under its key is updated, or it is added.
unfoldable pub upsert : PriceBar → List PriceBar → List PriceBar
upsert b [] = b ∷ []
upsert b (r ∷ rs) =
    let rest = upsert b rs in if is_bar b.instrument b.timestamp r then b ∷ rs else r ∷ rest

-- `PriceBar(instrument=instrument, ...)`
abbrev pub bar_of : ℕ → PriceBar → PriceBar
bar_of i b = record b { instrument = i }

-- `bulk_create` of the bars, in their order.
unfoldable pub bulk_create : ℕ → List PriceBar → List PriceBar → List PriceBar
unfolding upsert
bulk_create i [] rows = rows
bulk_create i (b ∷ bs) rows = bulk_create i bs (upsert (bar_of i b) rows)

-- `sync_instrument_history`: the number of bars, or `none` if the provider raises, and the table.
unfoldable pub sync_instrument_history : Provider → ℕ → List PriceBar → Option ℕ × List PriceBar
unfolding bulk_create
sync_instrument_history get_history i rows = elim (get_history i) [
  | none ↦ (none, rows)
  | some bars ↦ (some (length bars), bulk_create i bars rows)
]

-- The result that `sync_active_instruments` notes for an instrument.
abbrev pub written : Option ℕ → ℕ
written none = 0
written (some n) = n

-- `sync_active_instruments`, over the active instruments: the results, and the table.
unfoldable pub sync_active_instruments :
    Provider → List ℕ → List PriceBar → List (ℕ × ℕ) × List PriceBar
unfolding sync_instrument_history
sync_active_instruments get_history [] rows = ([], rows)
sync_active_instruments get_history (i ∷ is) rows =
    let (n, rows') = sync_instrument_history get_history i rows in
    let (results, end) = sync_active_instruments get_history is rows' in
    ((i, written n) ∷ results, end)
