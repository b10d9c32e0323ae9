-- ===== src/Backtest/Positions.antt =====
-- `positions_from_forecast` of backtesting/metrics.py, for one forecast and for all of a window.
use automated_stock_trading.Common.{Bool, Option, none, some, List, map, ◌&&◌, if◌then◌else◌}
use automated_stock_trading.Floats.{Floats, lt_float, ◌⊖◌, ◌⊘◌, float}

pub data Target : Type 0 where
  horizon_close : Target
  horizon_return : Target
  direction : Target
  weekday_anchored : Target
  multistep : Target

-- -1, 0 and 1.
pub data Position : Type 0 where
  short : Position
  flat : Position
  long : Position

-- A forecast beside its decision close, and the probability of a rise where there is one.
pub record Forecast (F : Type 0) : Type 0 where
  pub predicted : F
  pub anchor : F
  pub proba_up : Option F

module _ {F : Type 0} ⦃f : Floats F⦄ where
  or_predicted : F → Option F → F
  or_predicted p none = p
  or_predicted p (some q) = q

  close_edge : Forecast F → F
  close_edge x = if lt_float (float 0) x.anchor then x.predicted ⊘ x.anchor ⊖ float 1 else float 0

  -- What is compared with the threshold.
  unfoldable pub signal : Target → Forecast F → F
  unfolding or_predicted close_edge
  signal direction x = or_predicted x.predicted x.proba_up ⊖ float 1 ⊘ float 2
  signal horizon_return x = x.predicted
  signal horizon_close x = close_edge x
  signal weekday_anchored x = close_edge x
  signal multistep x = close_edge x

  -- `np.where(short_hit, -1, np.where(long_hit, 1, 0))`, the former where shorts are allowed.
  unfoldable pub position_from : (threshold : F) → (allow_short : Bool) → F → Position
  position_from threshold allow_short s =
      if allow_short && lt_float s (f.neg threshold)
      then short
      else if lt_float threshold s
      then long
      else flat

  unfoldable pub positions_from_forecast :
      Target → (long_threshold : F) → (allow_short : Bool) → List (Forecast F) → List Position
  unfolding signal position_from
  positions_from_forecast target long_threshold allow_short xs =
      map (λ x. position_from long_threshold allow_short (signal target x)) xs
