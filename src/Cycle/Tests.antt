-- ===== src/Cycle/Tests.antt =====
-- Cycles on the sample rows.
use automated_stock_trading.Common.{ℕ, none, some, [], ◌∷◌, true, refl}
use automated_stock_trading.Ledger.{Action, find_position}
use automated_stock_trading.Ledger.Samples.{rounding, noon, empty_db, holding}
use automated_stock_trading.Broker.Invariant.{IsBook}
use automated_stock_trading.Cycle.{Strategy, whole, Generator, act_on, run_trading_cycle}
use automated_stock_trading.Cycle.Sales.{Closed, act_on-Closed}
use automated_stock_trading.Cycle.Invariant.{run_trading_cycle-IsBook}

abbrev buyer : ℕ → Strategy
buyer n = record {
  id = n;
  is_active = true;
  account = some 1;
  instruments = 3 ∷ [];
  order_quantity = whole 5;
}

-- Signals a purchase at the first bar.
abbrev always_buy : Generator
always_buy [] = none
always_buy (b ∷ bs) = some (record { timestamp = b.timestamp; action = Action.buy } ∷ [])

run_trading_cycle-IsBook_example :
    IsBook
      (run_trading_cycle rounding
        (λ g i. noon)
        (λ g. some always_buy)
        (buyer 8 ∷ buyer 9 ∷ [])
        empty_db).1
run_trading_cycle-IsBook_example =
    run_trading_cycle-IsBook rounding (λ g i. noon) (λ g. some always_buy) (buyer 8 ∷ buyer 9 ∷ [])
      empty_db ((tt, tt), record { numbered = tt; before = tt; settled = tt })

act_on-Closed_example : Closed 1 3 (act_on rounding noon (buyer 8) 3 Action.sell holding)
unfolding find_position
act_on-Closed_example = act_on-Closed rounding noon (buyer 8) 3 holding (refl, tt)
