-- ===== src/Backtest/Rows.antt =====
-- The rows of backtesting/models.py, what a run of backtesting/engine.py carries, and what it calls
-- outside of this model.
use automated_stock_trading.Common.{ℕ, Bool, Option, List}
use automated_stock_trading.Folds.Arguments.{Scheme}
use automated_stock_trading.Folds.Split.{DataRow}
use automated_stock_trading.Backtest.Positions.{Position, Target}
use automated_stock_trading.Backtest.Trades.{Point, Trade}

pub data FitMode : Type 0 where
  walk_forward : FitMode
  frozen_artifact : FitMode

-- A path is a number, a blank one `none`.
pub record TrainingRun : Type 0 where
  pub model : ℕ
  pub artifact_path : Option ℕ

-- The trained model, with texts as numbers.
pub record TradingModel : Type 0 where
  pub id : ℕ
  pub target_spec : ℕ
  pub artifact_path : Option ℕ
  pub train_start : Option ℕ
  pub train_end : Option ℕ

pub record Backtest (F : Type 0) : Type 0 where
  pub model : TradingModel
  pub target_type : Target
  pub fit_mode : FitMode
  pub training_run : Option TrainingRun
  pub scheme : Scheme
  pub train_span : ℕ
  pub test_span : ℕ
  pub step : ℕ
  pub gap : ℕ
  pub long_threshold : F
  pub allow_short : Bool
  pub initial_cash : F
  pub commission_bps : F
  pub slippage_bps : F

-- `regression_metrics`, as `looks_leaky` reads it; a missing key is `none`.
pub record Accuracy (F : Type 0) : Type 0 where
  pub skill_vs_naive : Option F
  pub mae : Option F
  pub r2 : Option F

pub record BacktestFold (F : Type 0) : Type 0 where
  pub run : ℕ
  pub fold_index : ℕ
  pub train_start : ℕ
  pub train_end : ℕ
  pub test_start : ℕ
  pub test_end : ℕ
  pub n_train : ℕ
  pub n_test : ℕ
  pub metrics : Accuracy F

pub record BacktestPrediction (F : Type 0) : Type 0 where
  pub run : ℕ
  pub instrument : ℕ
  pub fold_index : ℕ
  pub as_of : ℕ
  pub target_date : ℕ
  pub predicted_value : F
  pub actual_value : F
  pub abs_error : F
  pub position : Position

pub record BacktestTrade (F : Type 0) : Type 0 where
  pub run : ℕ
  pub instrument : ℕ
  pub trade : Trade F

pub data Status : Type 0 where
  running : Status
  success : Status
  failed : Status

pub record BacktestRun (F : Type 0) : Type 0 where
  pub id : ℕ
  pub status : Status
  pub n_folds : ℕ
  pub n_predictions : ℕ
  pub n_trades : ℕ
  pub looks_leaky : Bool
  pub accuracy : Option (Accuracy F)
  pub equity_curve : List (ℕ × F)

-- The tables, and this run.
pub record Store (F : Type 0) : Type 0 where
  pub folds : List (BacktestFold F)
  pub predictions : List (BacktestPrediction F)
  pub trades : List (BacktestTrade F)
  pub run : BacktestRun F

-- A dataset, as far as a back-test reads it.
pub record Dataset (F : Type 0) : Type 0 where
  pub rows : List (DataRow F)
  pub feature_names : List ℕ
  pub is_clf : Bool
  pub multioutput : Bool

-- A forecast of `_final_step`, with the probability of a rise where the estimator gives one.
abbrev pub Raw : Type 0 → Type 0
Raw F = F × Option F

-- What an artifact holds; `trained_date` is its local date.
pub record Payload (F : Type 0) : Type 0 where
  pub feature_names : List ℕ
  pub target_spec : Option ℕ
  pub multioutput : Option Bool
  pub trained_date : ℕ
  pub train_end : Option ℕ
  pub predict : List (DataRow F) → Option (List (Raw F))

-- The libraries and the rest of the program, as a run calls them; `none` is an exception.
pub record Tools (F : Type 0) : Type 0 where
  pub build_dataset : Backtest F → Option (Dataset F)
  -- `sorted(set(decision_dates))`
  pub sessions : List (DataRow F) → List ℕ
  -- Building and fitting on the training rows, and the forecasts for the others.
  pub fit_predict : Dataset F → (train test : List (DataRow F)) → Option (List (Raw F))
  -- `joblib.load`
  pub load : ℕ → Option (Payload F)
  -- The metrics of what is true, forecast and the anchor, by the task.
  pub score : (is_clf : Bool) → (y_true y_pred anchor : List F) → Accuracy F
  pub round : F → F

-- `_PredictionSink`, with the folds of a scorer and how many it used.
pub record Sink (F : Type 0) : Type 0 where
  pub pred_rows : List (BacktestPrediction F)
  pub series : List (ℕ × List (Point F))
  pub pooled_true : List F
  pub pooled_pred : List F
  pub pooled_anchor : List F
  pub fold_rows : List (BacktestFold F)
  pub used_folds : ℕ
