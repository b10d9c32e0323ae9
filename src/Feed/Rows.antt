-- ===== src/Feed/Rows.antt =====
-- The rows of signalfeed/models.py, and what a trading model shows to them.
use automated_stock_trading.Common.{ℕ, Bool, Option, List}
use automated_stock_trading.Modeling.Targets.{RawSpec}

-- The types of target that `validate_spec` of modeling/targets.py knows.
pub data TargetType : Type 0 where
  weekday_anchored horizon_close horizon_return direction multistep : TargetType

-- `WeeklySignal.Direction`
pub data Direction : Type 0 where
  up down flat : Direction

-- `WeeklySignal.Status`
pub data SignalStatus : Type 0 where
  pending sent suppressed error : SignalStatus

-- `delivery.CHANNELS`
pub data Channel : Type 0 where
  email webhook telegram : Channel

-- The texts of a gate's reason and of a failed prediction.
pub data GateReason : Type 0 where
  blank no_model inactive untrained no_stats no_accuracy : GateReason
  low_accuracy no_skill low_skill passed_gate prediction_failed : GateReason

-- The dictionaries of `_live_stats` and `_holdout_stats`.
pub record Stats (F : Type 0) : Type 0 where
  pub is_live : Bool
  pub directional_accuracy : Option F
  pub skill : Option F

-- A row of the leaderboard.
pub record BoardRow (F : Type 0) : Type 0 where
  pub model : ℕ
  pub n : ℕ
  pub directional_accuracy : Option F
  pub skill : Option F

-- The fields of a `modeling.TradingModel` that the feed reads: `has_artifact` is whether its path is
-- not empty, `holdout` its holdout metrics, if they are not empty.
pub record TradingModel (F : Type 0) : Type 0 where
  pub id : ℕ
  pub is_active : Bool
  pub has_artifact : Bool
  pub holdout : Option (Stats F)
  pub target_spec : RawSpec

-- `WatchItem`
pub record WatchItem (F : Type 0) : Type 0 where
  pub instrument : ℕ
  pub trading_model : TradingModel F
  pub is_active : Bool
  pub min_directional_accuracy : F
  pub min_skill : F
  pub min_expected_move_pct : F
  pub sizing_capital : F
  pub max_position_pct : F
  pub kelly_fraction : F

-- `sizing.SizeSuggestion`
pub record SizeSuggestion (F : Type 0) : Type 0 where
  pub fraction : F
  pub notional : F
  pub shares : ℕ

-- `WeeklySignal`
pub record WeeklySignal (F : Type 0) : Type 0 where
  pub instrument : ℕ
  pub trading_model : ℕ
  pub as_of : ℕ
  pub target_date : ℕ
  pub direction : Direction
  pub expected_return_pct : Option F
  pub predicted_close : Option F
  pub reference_close : Option F
  pub flat_threshold_pct : F
  pub confidence : Option F
  pub size : Option (SizeSuggestion F)
  pub status : SignalStatus
  pub suppression_reason : GateReason
  pub channels : List Channel
  pub sent_at : Option ℕ
  pub actual_close : Option F
  pub actual_return_pct : Option F
  pub was_correct : Option Bool
