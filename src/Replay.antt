-- ===== src/Replay.antt =====
-- The replay of a strategy over one instrument's bars: strategies/backtesting/engine.py.
pub mod Log
pub mod Report
pub mod Metrics
pub mod Drawdown
mod Tests
use automated_stock_trading.Common.{
  ℕ, suc, ◌+◌, Bool, true, false, not, ◌&&◌, ◌||◌, Option, none, some, List, [], ◌∷◌, ◌++◌, ltb,
  leb, ◌==◌, if◌then◌else◌, length, exists,
}
use automated_stock_trading.Ledger.{Action, Signal}
use automated_stock_trading.Floats.{Floats, ◌⊕◌, ◌⊖◌, ◌⊗◌, ◌⊘◌, lt_float, le_float, float}

-- The `ValueError`s of `run_backtest`, in order; what the strategy raises; and what `int` raises at a
-- number of shares that is no number.
pub data ReplayError : Type 0 where
  bad_cash bad_costs bad_prices bad_timestamps : ReplayError
  strategy_error signal_count lots_error : ReplayError

pub data Outcome {ℓ} (A : Type ℓ) : Type ℓ where
  ok : A → Outcome A
  raised : ReplayError → Outcome A

-- What comes after a call that may raise.
abbrev pub chain {ℓ ℓ'} : {A : Type ℓ} {B : Type ℓ'} → Outcome A → (A → Outcome B) → Outcome B
chain (ok a) k = k a
chain (raised e) k = raised e

-- `marketdata.providers.base.Bar`, with the fields that the replay reads.
pub record Bar (F : Type 0) : Type 0 where
  pub timestamp : ℕ
  pub open_price : F
  pub close : F

-- `Trade`; the entry is optional here because the variables that it is made of may be `None`.
pub record Trade (F : Type 0) : Type 0 where
  pub entry_time : Option ℕ
  pub entry_price : Option F
  pub exit_time : ℕ
  pub exit_price : F
  pub shares : ℕ
  pub fees : F

-- `BacktestResult`
pub record BacktestResult (F : Type 0) : Type 0 where
  pub initial_cash : F
  pub final_equity : F
  pub equity_curve : List (ℕ × F)
  pub trades : List (Trade F)
  pub open_position_shares : ℕ

-- The arguments other than the strategy, the bars and the cash.
pub record Costs (F : Type 0) : Type 0 where
  pub next_open : Bool
  pub commission_bps : F
  pub slippage_bps : F

-- The variables of the loop over the bars.
pub record Book (F : Type 0) : Type 0 where
  pub cash : F
  pub shares : ℕ
  pub entry_price : Option F
  pub entry_time : Option ℕ
  pub entry_fee : F
  pub trades : List (Trade F)
  pub equity_curve : List (ℕ × F)

-- The action at a bar: with `next_open` it is that of the bar before, and HOLD at the first bar.
abbrev pub action_at : Bool → (before : Option Signal) → Signal → Action
action_at false before s = s.action
action_at true none s = Action.hold
action_at true (some p) s = p.action

module _ {F : Type 0} ⦃f : Floats F⦄ where
  abbrev pub bps : F
  bps = float 10000

  -- A cost that the second check refuses.
  abbrev pub bad_cost : F → Bool
  bad_cost v = not (f.is_finite v) || lt_float v (float 0) || le_float bps v

  abbrev pub bad_price : F → Bool
  bad_price v = not (f.is_finite v) || le_float v (float 0)

  abbrev pub bad_bar : Bar F → Bool
  bad_bar b = bad_price b.open_price || bad_price b.close

  -- Whether some bar is not later than the one before it.
  unfoldable pub out_of_order : List (Bar F) → Bool
  out_of_order [] = false
  out_of_order (a ∷ []) = false
  out_of_order (a ∷ b ∷ bs) = leb b.timestamp a.timestamp || out_of_order (b ∷ bs)

  -- A BUY while flat: as many shares as the cash covers, fee included.
  unfoldable pub enter : Costs F → (timestamp : ℕ) → (price : F) → Book F → Outcome (Book F)
  enter c t price s =
      let fee_rate = c.commission_bps ⊘ bps in
      let fill = price ⊗ (float 1 ⊕ c.slippage_bps ⊘ bps) in
      elim (f.int_floor_div s.cash (fill ⊗ (float 1 ⊕ fee_rate))) [
        | none ↦ raised lots_error
        | some n ↦
            if n == 0
            then ok (record s { shares = n })
            else (let fee = float n ⊗ fill ⊗ fee_rate in
                ok (record s {
                  cash = s.cash ⊖ (float n ⊗ fill ⊕ fee);
                  shares = n;
                  entry_price = some fill;
                  entry_time = some t;
                  entry_fee = fee;
                }))
      ]

  -- A SELL while holding: everything is sold, and the trade is logged.
  unfoldable pub leave : Costs F → (timestamp : ℕ) → (price : F) → Book F → Book F
  leave c t price s =
      let fee_rate = c.commission_bps ⊘ bps in
      let fill = price ⊗ (float 1 ⊖ c.slippage_bps ⊘ bps) in
      let exit_fee = float s.shares ⊗ fill ⊗ fee_rate in
      record s {
        cash = s.cash ⊕ (float s.shares ⊗ fill ⊖ exit_fee);
        shares = 0;
        entry_price = none;
        entry_time = none;
        trades =
            s.trades
            ++ (record {
              entry_time = s.entry_time;
              entry_price = s.entry_price;
              exit_time = t;
              exit_price = fill;
              shares = s.shares;
              fees = s.entry_fee ⊕ exit_fee;
            }
                ∷ []);
      }

  -- The body's `if` and `elif`.
  unfoldable pub trade :
      Costs F → Action → (timestamp : ℕ) → (price : F) → Book F → Outcome (Book F)
  unfolding enter leave
  trade c Action.buy t price s =
      if s.shares == 0 && lt_float (float 0) s.cash then enter c t price s else ok s
  trade c Action.sell t price s = if ltb 0 s.shares then ok (leave c t price s) else ok s
  trade c Action.hold t price s = ok s

  -- The equity at the close of a bar, appended to the curve.
  unfoldable pub mark : Bar F → Book F → Book F
  mark b s = record s {
    equity_curve = s.equity_curve ++ ((b.timestamp, s.cash ⊕ float s.shares ⊗ b.close) ∷ []);
  }

  abbrev pub price_at : Bool → Bar F → F
  price_at next_open b = if next_open then b.open_price else b.close

  -- The whole body for one bar.
  unfoldable pub replay_bar : Costs F → Option Signal → Bar F → Signal → Book F → Outcome (Book F)
  unfolding trade mark
  replay_bar c before b s book =
      chain (trade c (action_at c.next_open before s) b.timestamp (price_at c.next_open b) book)
        (λ book'. ok (mark b book'))

  -- The loop, with the signal of the bar before. One signal stands beside each bar.
  unfoldable pub replay :
      Costs F → Option Signal → List (Bar F × Signal) → Book F → Outcome (Book F)
  unfolding replay_bar
  replay c before [] book = ok book
  replay c before ((b, s) ∷ rest) book =
      chain (replay_bar c before b s book) (λ book'. replay c (some s) rest book')

  abbrev pub opening : F → Book F
  opening cash = record {
    cash = cash;
    shares = 0;
    entry_price = none;
    entry_time = none;
    entry_fee = float 0;
    trades = [];
    equity_curve = [];
  }

  -- `equity_curve[-1][1]`, which is there once a bar was replayed.
  unfoldable pub last_equity : F → List (ℕ × F) → F
  last_equity d [] = d
  last_equity d ((t, v) ∷ rest) = last_equity v rest

  abbrev pub result_of : F → Book F → BacktestResult F
  result_of cash s = record {
    initial_cash = cash;
    final_equity = last_equity cash s.equity_curve;
    equity_curve = s.equity_curve;
    trades = s.trades;
    open_position_shares = s.shares;
  }

  unfoldable pub paired : List (Bar F) → List Signal → List (Bar F × Signal)
  paired (b ∷ bs) (s ∷ ss) = (b, s) ∷ paired bs ss
  paired _ _ = []

  -- `run_backtest` after its checks of the arguments.
  unfoldable pub run_checked :
      (List (Bar F) → Option (List Signal))
      → List (Bar F)
      → F
      → Costs F
      → Outcome (BacktestResult F)
  unfolding replay paired last_equity
  run_checked generate [] cash c = ok (result_of cash (opening cash))
  run_checked generate (b ∷ bs) cash c = elim (generate (b ∷ bs)) [
    | none ↦ raised strategy_error
    | some signals ↦
        if length signals == length (b ∷ bs)
        then chain (replay c none (paired (b ∷ bs) signals) (opening cash))
            (λ s. ok (result_of cash s))
        else raised signal_count
  ]

  -- `run_backtest`
  unfoldable pub run_backtest :
      (List (Bar F) → Option (List Signal))
      → List (Bar F)
      → F
      → Costs F
      → Outcome (BacktestResult F)
  unfolding out_of_order run_checked
  run_backtest generate bars cash c =
      if not (f.is_finite cash) || le_float cash (float 0)
      then raised bad_cash
      else if bad_cost c.commission_bps || bad_cost c.slippage_bps
      then raised bad_costs
      else if exists bad_bar bars
      then raised bad_prices
      else if out_of_order bars
      then raised bad_timestamps
      else run_checked generate bars cash c
