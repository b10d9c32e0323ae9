-- ===== src/Backtest/Curves.antt =====
-- `simulate_instrument` and `combine_equity_curves` of backtesting/metrics.py.
use automated_stock_trading.Common.{
  ℕ, max, Option, none, some, List, [], ◌∷◌, ltb, leb, ◌==◌, map, if◌then◌else◌, length,
}
use automated_stock_trading.Floats.{Floats, ◌⊕◌, ◌⊖◌, ◌⊗◌, ◌⊘◌, float}
use automated_stock_trading.Backtest.Positions.{Position, short, flat, long}
use automated_stock_trading.Backtest.Trades.{Point, Trade, is_zero, signed, trade_log}

-- `abs(held - prev)`
abbrev pub distance : Position → Position → ℕ
distance short short = 0
distance short flat = 1
distance short long = 2
distance flat short = 1
distance flat flat = 0
distance flat long = 1
distance long short = 2
distance long flat = 1
distance long long = 0

-- `sorted` over a set.
insert_date : ℕ → List ℕ → List ℕ
insert_date d [] = d ∷ []
insert_date d (e ∷ ds) =
    let rest = insert_date d ds in
    if d == e then e ∷ ds else if ltb d e then d ∷ e ∷ ds else e ∷ rest

module _ {F : Type 0} ⦃f : Floats F⦄ where
  -- What is left after the cost of a change; none of it changes nothing.
  charged : (cost_rate equity : F) → (change : ℕ) → F
  charged cost_rate equity change =
      if change == 0 then equity else equity ⊖ equity ⊗ cost_rate ⊗ float change

  grown : (equity : F) → (held : Position) → (before after : F) → F
  grown equity held before after =
      equity
      ⊗ (float 1 ⊕ signed held (if is_zero before then float 0 else after ⊘ before ⊖ float 1))

  -- The curve from the point `p` on, with its equity and the position held until then. At the last
  -- point the position is closed.
  unfoldable pub curve_from :
      (cost_rate equity : F) → (prev : Position) → (p : Point F) → List (Point F) → List (ℕ × F)
  unfolding charged grown
  curve_from cost_rate equity prev p [] =
      (p.date, charged cost_rate equity (distance flat prev)) ∷ []
  curve_from cost_rate equity prev p (q ∷ rest) =
      let paid = charged cost_rate equity (distance p.position prev) in
      (p.date, equity)
      ∷ curve_from cost_rate (grown paid p.position p.close q.close) p.position q rest

  unfoldable pub curve : (cost_rate initial_cash : F) → List (Point F) → List (ℕ × F)
  unfolding curve_from
  curve cost_rate initial_cash [] = []
  curve cost_rate initial_cash (p ∷ ps) = curve_from cost_rate initial_cash flat p ps

  abbrev pub with_trades :
      List (ℕ × F) → Option (List (Trade F)) → Option (List (ℕ × F) × List (Trade F))
  with_trades c none = none
  with_trades c (some ts) = some (c, ts)

  -- `simulate_instrument`; no result is a lack of the model's fuel.
  unfoldable pub simulate_instrument :
      (initial_cash commission_bps slippage_bps : F)
      → List (Point F)
      → Option (List (ℕ × F) × List (Trade F))
  unfolding curve trade_log
  simulate_instrument initial_cash commission_bps slippage_bps points =
      let cost_rate = (commission_bps ⊕ slippage_bps) ⊘ float 10000 in
      let alloc = initial_cash ⊘ float (max (length points) 1) in
      with_trades (curve cost_rate initial_cash points) (trade_log alloc cost_rate points)

  -- The last value of a curve by a day, or what it starts with.
  unfoldable pub value_on : (value : F) → (day : ℕ) → List (ℕ × F) → F
  value_on value day [] = value
  value_on value day ((d, v) ∷ points) =
      let later = value_on v day points in if leb d day then later else value

  total_on : (per : F) → (day : ℕ) → List (List (ℕ × F)) → (total : F) → F
  unfolding value_on
  total_on per day [] total = total
  total_on per day (c ∷ curves) total = total_on per day curves (total ⊕ value_on per day c)

  add_dates : List (ℕ × F) → List ℕ → List ℕ
  unfolding insert_date
  add_dates [] ds = ds
  add_dates ((d, v) ∷ c) ds = insert_date d (add_dates c ds)

  all_dates : List (List (ℕ × F)) → List ℕ
  unfolding add_dates
  all_dates [] = []
  all_dates (c ∷ curves) = add_dates c (all_dates curves)

  filled : List (List (ℕ × F)) → List (List (ℕ × F))
  filled [] = []
  filled ([] ∷ curves) = filled curves
  filled ((p ∷ c) ∷ curves) = (p ∷ c) ∷ filled curves

  -- `combine_equity_curves`
  unfoldable pub combine_equity_curves : List (List (ℕ × F)) → (initial_cash : F) → List (ℕ × F)
  unfolding filled all_dates total_on
  combine_equity_curves curves initial_cash =
      let cs = filled curves in
      let per = initial_cash ⊘ float (length cs) in
      map (λ day. (day, total_on per day cs (float 0))) (all_dates cs)
