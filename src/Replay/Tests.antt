-- ===== src/Replay/Tests.antt =====
-- A replay of three bars, with whole numbers for floats.
use automated_stock_trading.Common.{
  ℕ, ◌+◌, ◌-◌, ◌*◌, ◌/◌, ◌==◌, if◌then◌else◌, true, false, none, some, List, [], ◌∷◌, refl, arith,
  ltb, leb,
}
use automated_stock_trading.Ledger.{Action, Signal}
use automated_stock_trading.Floats.{Floats, float}
use automated_stock_trading.Replay.Metrics.{max_drawdown}
use automated_stock_trading.Replay.Drawdown.{StrictOrder, IsGreatest, max_drawdown_lem}
use automated_stock_trading.Replay.{Bar, Costs, BacktestResult, run_backtest}
use automated_stock_trading.Replay.Report.{IsReport, run_backtest-IsReport}

instance whole_numbers : Floats ℕ
whole_numbers = record {
  of_int = λ n. n;
  add = λ a b. a + b;
  sub = λ a b. a - b;
  mul = λ a b. a * b;
  div = λ a b. a / b;
  neg = λ a. 0 - a;
  lt = λ a b. ltb a b;
  le = λ a b. leb a b;
  is_finite = λ a. true;
  int_floor_div = λ a b. if b == 0 then none else some (a / b);
}

abbrev bar_at : (timestamp price : ℕ) → Bar ℕ
bar_at t p = record { timestamp = t; open_price = p; close = p }

abbrev bars : List (Bar ℕ)
bars = bar_at 1 20 ∷ bar_at 2 25 ∷ bar_at 4 30 ∷ []

abbrev signal_of : Action → Signal
signal_of a = record { timestamp = 1; action = a }

abbrev free : Costs ℕ
free = record { next_open = false; commission_bps = 0; slippage_bps = 0 }

-- Five shares bought at 20 and sold at 25, with 5 of 105 left over.
abbrev report : BacktestResult ℕ
report = record {
  initial_cash = 105;
  final_equity = 130;
  equity_curve = (1, 105) ∷ (2, 130) ∷ (4, 130) ∷ [];
  trades =
      record {
        entry_time = some 1;
        entry_price = some 20;
        exit_time = 2;
        exit_price = 25;
        shares = 5;
        fees = 0;
      }
      ∷ [];
  open_position_shares = 0;
}

run_backtest-IsReport_example : IsReport bars report
unfolding run_backtest whole_numbers
run_backtest-IsReport_example =
    run_backtest-IsReport
      (λ b. some (signal_of Action.buy ∷ signal_of Action.sell ∷ signal_of Action.hold ∷ [])) bars
      105 free report refl

whole_numbers-StrictOrder : StrictOrder ℕ
unfolding whole_numbers
whole_numbers-StrictOrder = record {
  asymmetric = λ a b h. ground arith;
  cotransitive = λ a b c h k. ground arith;
}

max_drawdown_lem_example :
    IsGreatest {F = ℕ} report.initial_cash (float 0) report.equity_curve (max_drawdown report)
max_drawdown_lem_example = max_drawdown_lem {F = ℕ} whole_numbers-StrictOrder report
