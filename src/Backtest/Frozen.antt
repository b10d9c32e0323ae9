-- ===== src/Backtest/Frozen.antt =====
-- `_score_frozen` of backtesting/engine.py: a trained artifact on the sessions after its training.
use automated_stock_trading.Common.{
  ℕ, min, max, ◌==◌, ◌&&◌, not, ltb, Bool, true, false, Option, none, some, List, [], ◌∷◌,
  if◌then◌else◌, length, select,
}
use automated_stock_trading.Floats.{Floats}
use automated_stock_trading.Folds.Sessions.{Fold}
use automated_stock_trading.Folds.Split.{DataRow, min_train_rows}
use automated_stock_trading.Backtest.Rows.{TrainingRun, Backtest, Dataset, Payload, Tools, Sink}
use automated_stock_trading.Backtest.Scoring.{beside, add_fold, refuse_if, ◌>>=◌, ◌>>◌}

abbrev pub or_else : Option ℕ → Option ℕ → Option ℕ
or_else none b = b
or_else (some a) b = some a

-- The pinned run's artifact, else the model's latest.
abbrev pub pinned : Option TrainingRun → Option ℕ
pinned none = none
pinned (some r) = r.artifact_path

same_names : List ℕ → List ℕ → Bool
same_names [] [] = true
same_names (a ∷ as') (b ∷ bs) = a == b && same_names as' bs
same_names _ _ = false

abbrev differs : Option ℕ → ℕ → Bool
differs none spec = false
differs (some t) spec = not (t == spec)

abbrev same_bool : Bool → Bool → Bool
same_bool true b = b
same_bool false b = not b

abbrev other_shape : Option Bool → Bool → Bool
other_shape none multioutput = false
other_shape (some m) multioutput = not (same_bool m multioutput)

-- `oos_after`: the earlier of the training's date and its configured end.
abbrev pub earlier : (trained_date : ℕ) → (configured_end : Option ℕ) → ℕ
earlier trained_date none = trained_date
earlier trained_date (some d) = min trained_date d

abbrev or_day : Option ℕ → ℕ → ℕ
or_day none d = d
or_day (some s) d = s

module _ {F : Type 0} where
  abbrev pub artifact_path : Backtest F → Option ℕ
  artifact_path bt = or_else (pinned bt.training_run) bt.model.artifact_path

  abbrev pub oos_after : Backtest F → Payload F → ℕ
  oos_after bt payload = earlier payload.trained_date (or_else payload.train_end bt.model.train_end)

  abbrev pub is_after : (day : ℕ) → DataRow F → Bool
  is_after day r = ltb day r.decision_date

  -- `min(test_dates)` and `max(test_dates)`, from `d` on.
  first_date : ℕ → List (DataRow F) → ℕ
  first_date d [] = d
  first_date d (r ∷ rs) = first_date (min d r.decision_date) rs

  last_date : ℕ → List (DataRow F) → ℕ
  last_date d [] = d
  last_date d (r ∷ rs) = last_date (max d r.decision_date) rs

  -- The one fold of frozen mode.
  unfoldable pub frozen_fold : Backtest F → (oos_after : ℕ) → List (DataRow F) → Fold
  unfolding first_date last_date
  frozen_fold bt day [] = record {
    index = 0;
    train_start = or_day bt.model.train_start day;
    train_end = day;
    test_start = day;
    test_end = day;
  }
  frozen_fold bt day (r ∷ rs) = record {
    index = 0;
    train_start = or_day bt.model.train_start day;
    train_end = day;
    test_start = first_date r.decision_date rs;
    test_end = last_date r.decision_date rs;
  }

  -- The checks of an artifact against the dataset and the model.
  unfoldable pub check_payload : Backtest F → Dataset F → Payload F → Option (Unit {0})
  unfolding same_names
  check_payload bt ds payload = do
    refuse_if (not (same_names payload.feature_names ds.feature_names))
    refuse_if (differs payload.target_spec bt.model.target_spec)
    refuse_if (other_shape payload.multioutput ds.multioutput)

  -- The rows that are scored: those after the cut-off, if they are enough.
  unfoldable pub rows_after : (day : ℕ) → List (DataRow F) → Option (List (DataRow F))
  rows_after day rows =
      let test = select (is_after day) rows in
      if ltb (length test) min_train_rows then none else some test

module _ {F : Type 0} ⦃f : Floats F⦄ where
  -- The forecasts of the artifact for the rows, as one fold.
  unfoldable pub score_rows :
      Tools F
      → Backtest F
      → Dataset F
      → (run : ℕ) → Payload F
      → List (DataRow F)
      → Sink F
      → Option (Sink F)
  unfolding frozen_fold add_fold beside
  score_rows tools bt ds run payload test sink = do
    raw ← payload.predict test
    xs ← beside test raw
    some (add_fold tools bt ds run (frozen_fold bt (oos_after bt payload) test) 0 xs sink)

  unfoldable pub score_frozen :
      Tools F → Backtest F → Dataset F → (run : ℕ) → Sink F → Option (Sink F)
  unfolding check_payload rows_after score_rows
  score_frozen tools bt ds run sink = do
    path ← artifact_path bt
    payload ← tools.load path
    check_payload bt ds payload
    test ← rows_after (oos_after bt payload) ds.rows
    score_rows tools bt ds run payload test sink
