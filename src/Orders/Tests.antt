-- ===== src/Orders/Tests.antt =====
-- Orders placed on the sample rows.
use automated_stock_trading.Common.{refl, inr, none, some, arith}
use automated_stock_trading.Ledger.{
  Action, Side, World, last_bar, equity, find_position, refresh_from_db, create_order,
  holdings_value,
}
use automated_stock_trading.Risk.{evaluate, get_opening_equity, risk_profile}
use automated_stock_trading.Ledger.Samples.{rounding, noon, later, saver, opened}
use automated_stock_trading.Broker.{submit_via}
use automated_stock_trading.Broker.Invariant.{IsBook}
use automated_stock_trading.Orders.{place_order, is_duplicate}
use automated_stock_trading.Orders.Filled.{IsDone, place_order-Filled}
use automated_stock_trading.Orders.Invariant.{place_order-IsBook}
use automated_stock_trading.Orders.Outcome.{Outcome, place_order-Placed}
use automated_stock_trading.Orders.Record.{Refused, place_order-again}

-- The database after ten units were bought.
abbrev bought : World
bought = record {
  account = saver;
  db = (place_order rounding noon 3 Action.buy 10 none opened).1.db;
}

place_order-Placed_example :
    Outcome Action.buy rounding noon 3 10 opened
      (place_order rounding noon 3 Action.buy 10 none opened)
place_order-Placed_example = place_order-Placed rounding noon 3 Action.buy 10 none opened tt

place_order-IsBook_example : IsBook (place_order rounding noon 3 Action.buy 10 none opened).1.db
place_order-IsBook_example =
    place_order-IsBook rounding noon 3 Action.buy 10 none opened (omega arith)
      ((tt, tt), record { numbered = tt; before = tt; settled = tt })

place_order-again_example :
    Refused bought (place_order rounding later 3 Action.buy 25 (some 4) bought)
unfolding place_order last_bar evaluate equity find_position submit_via refresh_from_db create_order
    holdings_value
place_order-again_example =
    place_order-again rounding noon later 3 Side.buy 10 25 none (some 4) opened bought refl refl
      refl (omega arith)

place_order-Filled_example : IsDone (place_order rounding noon 3 Action.buy 10 none opened).0
unfolding is_duplicate last_bar equity holdings_value find_position get_opening_equity risk_profile
place_order-Filled_example =
    place_order-Filled rounding noon 3 Side.buy 10 none opened refl refl
      (inr (omega arith), omega arith, omega arith) refl (saver, refl, omega arith)
