-- ===== src/Modeling/Build.antt =====
-- `task_of`, `is_multioutput` and the whole of `build_target`, of modeling/targets.py.
use automated_stock_trading.Common.{ℕ, Bool, true, false, List, map, sort_by}
use automated_stock_trading.Floats.{Floats}
use automated_stock_trading.Search.Rows.{Task, regression, classification}
use automated_stock_trading.Modeling.Targets.{
  horizon_close, horizon_return, direction, RawSpec, Spec, ahead_by, anchored, steps_of, Checked,
  ok, validate_spec, ◌>>=◌,
}
use automated_stock_trading.Modeling.Labels.{OhlcvRow, Label, is_later, labelled}

abbrev pub spec_task : Spec → Task
spec_task (ahead_by direction h) = classification
spec_task (ahead_by horizon_close h) = regression
spec_task (ahead_by horizon_return h) = regression
spec_task (anchored entry exit) = regression
spec_task (steps_of n) = regression

-- `task_of`
unfoldable pub task_of : RawSpec → Checked Task
unfolding validate_spec
task_of raw = do spec ← validate_spec raw; ok (spec_task spec)

abbrev pub is_steps : Spec → Bool
is_steps (steps_of n) = true
is_steps (ahead_by t h) = false
is_steps (anchored entry exit) = false

-- `is_multioutput`
unfoldable pub is_multioutput : RawSpec → Checked Bool
unfolding validate_spec
is_multioutput raw = do spec ← validate_spec raw; ok (is_steps spec)

module _ {F : Type 0} ⦃f : Floats F⦄ (local_date : ℕ → ℕ) where
  -- `build_target`
  unfoldable pub build_target :
      RawSpec
      → (ohlcv : List (OhlcvRow F)) → (decision_index : List ℕ) → Checked (List (Label F) × Task)
  unfolding validate_spec labelled sort_by
  build_target raw ohlcv index = do
    spec ← validate_spec raw
    ok (map (labelled local_date (sort_by is_later ohlcv) spec) index, spec_task spec)
