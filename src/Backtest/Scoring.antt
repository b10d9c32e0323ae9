-- ===== src/Backtest/Scoring.antt =====
-- `_score_walk_forward` of backtesting/engine.py, with `_record_predictions` and `looks_leaky`.
use automated_stock_trading.Common.{
  ℕ, ◌+◌, ◌==◌, ◌&&◌, Bool, true, false, Option, none, some, List, [], ◌∷◌, ◌++◌, map,
  if◌then◌else◌, length,
}
use automated_stock_trading.Floats.{Floats, lt_float, ◌⊖◌, ◌⊘◌, float}
use automated_stock_trading.Folds.Arguments.{Outcome, nonneg}
use automated_stock_trading.Folds.Sessions.{Fold, generate_folds}
use automated_stock_trading.Folds.Split.{DataRow, fold_split}
use automated_stock_trading.Backtest.Positions.{Position, Forecast, positions_from_forecast}
use automated_stock_trading.Backtest.Trades.{Point, absolute}
use automated_stock_trading.Backtest.Rows.{
  Backtest, Accuracy, BacktestPrediction, Dataset, Raw, Tools, Sink,
}

infixl 5 ◌>>=◌
abbrev pub ◌>>=◌ {ℓ κ} : {A : Type ℓ} {B : Type κ} → Option A → (A → Option B) → Option B
none >>= f = none
some a >>= f = f a

infixl 5 ◌>>◌
abbrev pub ◌>>◌ {ℓ} : {A : Type 0} {B : Type ℓ} → Option A → Option B → Option B
none >> b = none
some a >> b = b

-- `raise` where a test holds.
abbrev pub refuse_if : Bool → Option (Unit {0})
refuse_if b = if b then none else some tt

-- `if not folds: raise`
abbrev pub made_folds : Outcome (List Fold) → Option (List Fold)
made_folds (Outcome.raised e) = none
made_folds (Outcome.ok []) = none
made_folds (Outcome.ok (x ∷ xs)) = some (x ∷ xs)

-- A row to test with its forecast and its label.
pub record Scored (F : Type 0) : Type 0 where
  pub row : DataRow F
  pub raw : Raw F
  pub actual : F

module _ {F : Type 0} ⦃f : Floats F⦄ where
  abbrev above : F → Option F → Bool
  above limit none = false
  above limit (some v) = lt_float limit v

  abbrev below : F → Option F → Bool
  below limit none = false
  below limit (some v) = lt_float v limit

  unfoldable pub looks_leaky : (skill_ceiling : F) → Accuracy F → Bool
  looks_leaky skill_ceiling a =
      if below (float 1 ⊘ float 1000000) a.mae
      then true
      else if above skill_ceiling a.skill_vs_naive
      then true
      else above (float 999 ⊘ float 1000) a.r2

  -- `_final_step` of a label; an empty one has no last entry.
  final_step : List F → Option F
  final_step [] = none
  final_step (y ∷ []) = some y
  final_step (y ∷ z ∷ ys) = final_step (z ∷ ys)

  -- The forecasts beside their rows; too few of them are an `IndexError`.
  unfoldable pub beside : List (DataRow F) → List (Raw F) → Option (List (Scored F))
  unfolding final_step
  beside [] raws = some []
  beside (r ∷ rows) [] = none
  beside (r ∷ rows) (raw ∷ raws) = do
    rest ← beside rows raws
    y ← final_step r.label
    some (record { row = r; raw = raw; actual = y } ∷ rest)

  abs_error : Tools F → (is_clf : Bool) → (predicted actual : F) → F
  abs_error tools is_clf p y =
      if is_clf
      then (if f.le (tools.round p) y && f.le y (tools.round p) then float 0 else float 1)
      else absolute (p ⊖ y)

  -- `series.setdefault(symbol, []).append(point)`
  unfoldable pub add_point :
      (symbol : ℕ) → Point F → List (ℕ × List (Point F)) → List (ℕ × List (Point F))
  add_point symbol x [] = (symbol, x ∷ []) ∷ []
  add_point symbol x ((s, xs) ∷ series) =
      let rest = add_point symbol x series in
      if s == symbol then (s, xs ++ x ∷ []) ∷ series else (s, xs) ∷ rest

  abbrev prediction :
      Tools F → (is_clf : Bool) → (run fold_index : ℕ) → Scored F → Position → BacktestPrediction F
  prediction tools is_clf run fold_index x pos = record {
    run = run;
    instrument = x.row.instrument;
    fold_index = fold_index;
    as_of = x.row.index;
    target_date = x.row.target_date;
    predicted_value = x.raw.0;
    actual_value = x.actual;
    abs_error = abs_error tools is_clf x.raw.0 x.actual;
    position = pos;
  }

  -- `_record_predictions`, one row after the other; what is pooled is added with its row.
  unfoldable pub record_predictions :
      Tools F
      → (is_clf : Bool) → (run fold_index : ℕ) → List (Scored F)
      → List Position
      → Sink F
      → Sink F
  unfolding abs_error add_point
  record_predictions tools is_clf run fold_index [] positions sink = sink
  record_predictions tools is_clf run fold_index (x ∷ xs) [] sink = sink
  record_predictions tools is_clf run fold_index (x ∷ xs) (pos ∷ positions) sink =
      record_predictions tools is_clf run fold_index xs positions (record sink {
        pred_rows = sink.pred_rows ++ prediction tools is_clf run fold_index x pos ∷ [];
        series =
            add_point x.row.instrument
              (record { date = x.row.decision_date; close = x.row.anchor; position = pos })
              sink.series;
        pooled_true = sink.pooled_true ++ x.actual ∷ [];
        pooled_pred = sink.pooled_pred ++ x.raw.0 ∷ [];
        pooled_anchor = sink.pooled_anchor ++ x.row.anchor ∷ [];
      })

  abbrev forecasts : List (Scored F) → List (Forecast F)
  forecasts xs =
      map (λ x. record { predicted = x.raw.0; anchor = x.row.anchor; proba_up = x.raw.1 }) xs

  -- `_positions_and_metrics`, and what both scorers add with them: the fold and its predictions.
  unfoldable pub add_fold :
      Tools F
      → Backtest F
      → Dataset F
      → (run : ℕ) → Fold
      → (n_train : ℕ) → List (Scored F)
      → Sink F
      → Sink F
  unfolding record_predictions positions_from_forecast
  add_fold tools bt ds run fold n_train xs sink =
      let positions =
        positions_from_forecast bt.target_type bt.long_threshold bt.allow_short (forecasts xs) in
      let metrics =
        tools.score ds.is_clf (map (λ x. x.actual) xs) (map (λ x. x.raw.0) xs)
          (map (λ x. x.row.anchor) xs) in
      record_predictions tools ds.is_clf run fold.index xs positions (record sink {
        fold_rows =
            sink.fold_rows
            ++ record {
              run = run;
              fold_index = fold.index;
              train_start = fold.train_start;
              train_end = fold.train_end;
              test_start = fold.test_start;
              test_end = fold.test_end;
              n_train = n_train;
              n_test = length xs;
              metrics = metrics;
            }
              ∷ [];
        used_folds = sink.used_folds + 1;
      })

  -- The body of the loop over folds; `none` of the division is its `continue`.
  unfoldable pub score_fold :
      Tools F
      → Backtest F
      → Dataset F
      → (run : ℕ) → Fold
      → Option (List (DataRow F) × List (DataRow F))
      → Sink F
      → Option (Sink F)
  unfolding add_fold beside
  score_fold tools bt ds run fold none sink = some sink
  score_fold tools bt ds run fold (some (train, test)) sink = do
    raw ← tools.fit_predict ds train test
    xs ← beside test raw
    some (add_fold tools bt ds run fold (length train) xs sink)

  unfoldable pub score_folds :
      Tools F → Backtest F → Dataset F → (run : ℕ) → List Fold → Sink F → Option (Sink F)
  unfolding score_fold
  score_folds tools bt ds run [] sink = some sink
  score_folds tools bt ds run (fold ∷ folds) sink = do
    next ← score_fold tools bt ds run fold (fold_split fold ds.rows) sink
    score_folds tools bt ds run folds next

  unfoldable pub score_walk_forward :
      Tools F → Backtest F → Dataset F → (run : ℕ) → Sink F → Option (Sink F)
  unfolding score_folds
  score_walk_forward tools bt ds run sink = do
    folds ← made_folds (
        generate_folds (tools.sessions ds.rows) bt.scheme (nonneg bt.train_span)
          (nonneg bt.test_span) (nonneg bt.step) (nonneg bt.gap))
    score_folds tools bt ds run folds sink
