-- ===== src/Market/Tests.antt =====
-- A sync of the sample instrument.
use automated_stock_trading.Common.{ℕ, ◌≡◌, ◌≢◌, refl, some, List, [], ◌∷◌}
use automated_stock_trading.Ledger.{PriceBar}
use automated_stock_trading.Ledger.Samples.{daily_bar}
use automated_stock_trading.Market.{Provider, sync_instrument_history, sync_active_instruments}
use automated_stock_trading.Market.Sync.{
  find_bar, last_at, after_sync, IsKeyedOnce, sync_instrument_history_lem,
  sync_active_instruments-IsKeyedOnce,
}

abbrev fetched : List PriceBar
fetched = daily_bar 11 530_000 ∷ daily_bar 12 540_000 ∷ []

abbrev provider : Provider
provider i = some fetched

abbrev stored : List PriceBar
stored = daily_bar 11 520_000 ∷ []

sync_instrument_history_lem_example :
    let rows' = (sync_instrument_history provider 3 stored).1 in
    (find_bar 3 11 rows' ≡ after_sync (last_at 3 11 fetched) (find_bar 3 11 stored))
    × ((j : ℕ) → j ≢ 3 → find_bar j 11 rows' ≡ find_bar j 11 stored)
sync_instrument_history_lem_example = sync_instrument_history_lem provider 3 11 fetched stored refl

sync_active_instruments-IsKeyedOnce_example :
    IsKeyedOnce (sync_active_instruments provider (3 ∷ 4 ∷ []) stored).1
unfolding find_bar
sync_active_instruments-IsKeyedOnce_example =
    sync_active_instruments-IsKeyedOnce provider (3 ∷ 4 ∷ []) stored (refl, tt)
