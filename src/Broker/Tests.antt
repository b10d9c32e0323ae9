-- ===== src/Broker/Tests.antt =====
-- An order submitted on the sample rows.
use automated_stock_trading.Common.{none, refl}
use automated_stock_trading.Ledger.{Side, pending, blank, Order, find_position}
use automated_stock_trading.Ledger.Samples.{rounding, noon, holding}
use automated_stock_trading.Broker.{submit_order}
use automated_stock_trading.Broker.Outcome.{Ended, submit_order-Ended}

-- Four of the ten units held are offered.
abbrev offer : Order
offer = record {
  id = 1;
  account = 1;
  instrument = 3;
  strategy = none;
  side = Side.sell;
  quantity = 4;
  status = pending;
  filled_quantity = 0;
  filled_price = none;
  rejection_reason = blank;
  submitted_at = none;
  filled_at = none;
  created_at = 1_000_000_000;
}

submit_order-Ended_example :
    Ended rounding noon offer holding (submit_order rounding noon offer holding)
unfolding find_position
submit_order-Ended_example = submit_order-Ended rounding noon offer holding (refl, tt)
