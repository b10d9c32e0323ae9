-- ===== src/Replay/Metrics.antt =====
-- The figures of a replay: the properties of `BacktestResult` and `Trade` in
-- strategies/backtesting/engine.py.
use automated_stock_trading.Common.{
  ℕ, suc, Bool, false, Option, none, some, List, [], ◌∷◌, if◌then◌else◌, length,
}
use automated_stock_trading.Floats.{Floats, ◌⊖◌, ◌⊗◌, ◌⊘◌, lt_float, le_float, float}
use automated_stock_trading.Replay.{Trade, BacktestResult}

module _ {F : Type 0} where
  -- `num_trades`
  abbrev pub num_trades : BacktestResult F → ℕ
  num_trades r = length r.trades

module _ {F : Type 0} ⦃f : Floats F⦄ where
  -- `Trade.pnl`, of a trade with a known entry.
  unfoldable pub pnl : Trade F → Option F
  pnl t = elim t.entry_price [
    | none ↦ none
    | some e ↦ some ((t.exit_price ⊖ e) ⊗ float t.shares ⊖ t.fees)
  ]

  -- `t.pnl > 0`
  abbrev pub is_win : Option F → Bool
  is_win none = false
  is_win (some x) = lt_float (float 0) x

  -- `wins`
  unfoldable pub wins : List (Trade F) → ℕ
  unfolding pnl
  wins [] = 0
  wins (t ∷ ts) = let rest = wins ts in if is_win (pnl t) then suc rest else rest

  -- `win_rate`
  unfoldable pub win_rate : BacktestResult F → Option F
  unfolding wins
  win_rate r = elim r.trades [
    | [] ↦ none
    | t ∷ ts ↦ some (float (wins (t ∷ ts)) ⊘ float (length (t ∷ ts)))
  ]

  -- `total_return`
  unfoldable pub total_return : BacktestResult F → F
  total_return r =
      if le_float r.initial_cash (float 0)
      then (if le_float (float 0) r.initial_cash
          then float 0
          else r.final_equity ⊘ r.initial_cash ⊖ float 1)
      else r.final_equity ⊘ r.initial_cash ⊖ float 1

  -- Python's `max(a, b)`
  abbrev pub greater : F → F → F
  greater a b = if lt_float a b then b else a

  -- One round of the loop of `max_drawdown`: the peak, and the drawdown so far.
  abbrev pub drawdown_at : (peak max_dd equity : F) → F
  drawdown_at peak max_dd equity =
      if lt_float (float 0) peak then greater max_dd ((peak ⊖ equity) ⊘ peak) else max_dd

  unfoldable pub drawdown_from : (peak max_dd : F) → List (ℕ × F) → F
  drawdown_from peak max_dd [] = max_dd
  drawdown_from peak max_dd ((t, equity) ∷ rest) =
      let peak' = greater peak equity in drawdown_from peak' (drawdown_at peak' max_dd equity) rest

  -- `max_drawdown`
  unfoldable pub max_drawdown : BacktestResult F → F
  unfolding drawdown_from
  max_drawdown r = drawdown_from r.initial_cash (float 0) r.equity_curve
