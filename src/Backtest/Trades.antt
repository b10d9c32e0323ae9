-- ===== src/Backtest/Trades.antt =====
-- `_trade_log` of backtesting/metrics.py. An index that only moves forward is the rest of the list.
use automated_stock_trading.Common.{
  ℕ, zero, suc, Bool, true, false, Option, none, some, List, [], ◌∷◌, ◌&&◌, if◌then◌else◌, length,
}
use automated_stock_trading.Floats.{Floats, lt_float, ◌⊕◌, ◌⊖◌, ◌⊗◌, ◌⊘◌, float}
use automated_stock_trading.Backtest.Positions.{Position, short, flat, long}

-- A date with its close and the position that is taken there.
pub record Point (F : Type 0) : Type 0 where
  pub date : ℕ
  pub close : F
  pub position : Position

pub record Trade (F : Type 0) : Type 0 where
  pub direction : Position
  pub entry_date : ℕ
  pub exit_date : ℕ
  pub entry_price : F
  pub exit_price : F
  pub shares : F
  pub fees : F
  pub pnl : F
  pub return_pct : F

abbrev pub same : Position → Position → Bool
same short short = true
same flat flat = true
same long long = true
same _ _ = false

module _ {F : Type 0} ⦃f : Floats F⦄ where
  -- `v * x`
  unfoldable pub signed : Position → F → F
  signed short x = f.neg x
  signed flat x = float 0
  signed long x = x

  abbrev pub absolute : F → F
  absolute x = if lt_float x (float 0) then f.neg x else x

  abbrev pub is_zero : F → Bool
  is_zero x = f.le x (float 0) && f.le (float 0) x

  -- The dictionary of a run from `p` to `q`.
  unfoldable pub trade : (alloc cost_rate : F) → (p q : Point F) → Trade F
  unfolding signed
  trade alloc cost_rate p q =
      let shares = signed p.position (if is_zero p.close then float 0 else alloc ⊘ p.close) in
      let fees = cost_rate ⊗ absolute shares ⊗ (p.close ⊕ q.close) in
      record {
        direction = p.position;
        entry_date = p.date;
        exit_date = q.date;
        entry_price = p.close;
        exit_price = q.close;
        shares = shares;
        fees = fees;
        pnl = shares ⊗ (q.close ⊖ p.close) ⊖ fees;
        return_pct =
            if is_zero p.close then float 0 else signed p.position (q.close ⊘ p.close ⊖ float 1);
      }

  -- The inner `while`, from the point `q` after `j`: where the run leaves, and what comes after.
  unfoldable pub run_end : Position → (q : Point F) → List (Point F) → Point F × List (Point F)
  run_end v q [] = (q, [])
  run_end v q (r ∷ rest) =
      let further = run_end v r rest in if same q.position v then further else (q, r ∷ rest)

  unfoldable pub entered : Trade F → Option (List (Trade F)) → Option (List (Trade F))
  entered t none = none
  entered t (some ts) = some (t ∷ ts)

  -- A run of the position `v` from `p` on, whose next point is `q`, with the trades after it.
  unfoldable pub run_from :
      (alloc cost_rate : F) (p : Point F)
      → (log : List (Point F) → Option (List (Trade F))) → Point F × List (Point F)
      → Option (List (Trade F))
  unfolding trade entered
  run_from alloc cost_rate p log (x, after) = entered (trade alloc cost_rate p x) (log (x ∷ after))

  -- One round of the outer `while`, by the position `v` of `p`.
  unfoldable pub round :
      (v : Position)
      → (alloc cost_rate : F) (p q : Point F) (rest : List (Point F))
      → (log : List (Point F) → Option (List (Trade F))) → Option (List (Trade F))
  unfolding run_end run_from
  round flat alloc cost_rate p q rest log = log (q ∷ rest)
  round short alloc cost_rate p q rest log = run_from alloc cost_rate p log (run_end short q rest)
  round long alloc cost_rate p q rest log = run_from alloc cost_rate p log (run_end long q rest)

  -- The outer `while`; `none` is a lack of fuel.
  unfoldable pub log_from :
      (fuel : ℕ) → (alloc cost_rate : F) → List (Point F) → Option (List (Trade F))
  unfolding round
  log_from zero alloc cost_rate points = none
  log_from (suc fuel) alloc cost_rate [] = some []
  log_from (suc fuel) alloc cost_rate (p ∷ []) = some []
  log_from (suc fuel) alloc cost_rate (p ∷ q ∷ rest) =
      round p.position alloc cost_rate p q rest (log_from fuel alloc cost_rate)

  unfoldable pub trade_log : (alloc cost_rate : F) → List (Point F) → Option (List (Trade F))
  unfolding log_from
  trade_log alloc cost_rate points = log_from (suc (length points)) alloc cost_rate points
