-- ===== src/Search/Rows.antt =====
-- The rows of modelsearch/models.py that a run writes, and what a run calls outside of this model:
-- the dataset, the estimators with their fits, and the metrics of predictions.
use automated_stock_trading.Common.{ℕ, Bool, Option, List}
use automated_stock_trading.Folds.Arguments.{Scheme}
use automated_stock_trading.Folds.Split.{DataRow}
use automated_stock_trading.Search.Space.{Candidate, Space, Mode}

-- A key of a metrics dictionary that can rank, or is needed to.
pub data Metric : Type 0 where
  mae : Metric
  rmse : Metric
  r2 : Metric
  directional_accuracy : Metric
  skill_vs_naive : Metric
  accuracy : Metric
  roc_auc : Metric
  f1 : Metric
  precision : Metric
  recall : Metric

-- REGRESSION_SCORES and CLASSIFICATION_SCORES.
pub data ScoreKey : Type 0 where
  neg_mae : ScoreKey
  neg_rmse : ScoreKey
  plain : Metric → ScoreKey

pub data Task : Type 0 where
  regression : Task
  classification : Task

-- `metrics.get`: `none` is a missing key or a stored None.
abbrev pub Metrics : Type 0 → Type 0
Metrics F = Metric → Option F

pub data ScoringMode : Type 0 where
  holdout : ScoringMode
  walk_forward : ScoringMode

pub record ModelSearch (V : Type 0) : Type 0 where
  pub search_space : Space V
  pub mode : Mode
  pub max_candidates : ℕ
  pub auto_ensemble_top_k : ℕ
  -- A blank is `none`.
  pub scoring : Option ScoreKey
  pub scoring_mode : ScoringMode
  pub wf_scheme : Scheme
  pub wf_train_span : ℕ
  pub wf_test_span : ℕ
  pub wf_step : ℕ
  pub wf_gap : ℕ

-- What evaluating a candidate has stored in its row: its score, metrics and costs, or no figures.
-- In walk-forward mode the holdout's metrics and score stand beside those of the folds.
pub data Evaluation (F : Type 0) : Type 0 where
  scored :
      (score : Option F) (metrics : Metrics F) (held : Option (Metrics F × Option F))
      (fit_seconds predict_seconds predict_latency_ms : F) (model_size_bytes : ℕ)
      (wf_folds : Option ℕ)
      → Evaluation F
  failed : Evaluation F

-- `ModelSearchResult`; `id` tells the objects of a run apart.
pub record Result (V F : Type 0) : Type 0 where
  pub id : ℕ
  pub run : ℕ
  pub candidate : Candidate V
  pub params_hash : ℕ
  pub evaluation : Evaluation F
  pub rank : Option ℕ
  pub is_pareto : Bool

pub data Error : Type 0 where
  no_candidates : Error
  no_dataset : Error
  no_folds : Error
  -- `np.isfinite(None)`
  not_a_number : Error
  -- The constraint `unique_candidate_per_run`.
  duplicate_candidate : Error

pub data Attempt (A : Type 0) : Type 0 where
  done : A → Attempt A
  raised : Error → Attempt A

pub data Status : Type 0 where
  running : Status
  success : Status
  failure : Error → Status

-- `ModelSearchRun`
pub record Run : Type 0 where
  pub id : ℕ
  pub status : Status
  pub candidates_total : ℕ
  pub candidates_ok : ℕ
  pub candidates_failed : ℕ
  pub dataset_rows : ℕ
  pub feature_count : ℕ

-- The tables: all results, this run, and the search's `best_result`, by its object.
pub record Store (V F : Type 0) : Type 0 where
  pub results : List (Result V F)
  pub run : Run
  pub best_result : Option ℕ

-- `Dataset`, as far as a search reads it.
pub record Dataset (F : Type 0) : Type 0 where
  pub rows : List (DataRow F)
  pub task : Task
  pub multioutput : Bool
  pub feature_count : ℕ

-- What the folds of a candidate have pooled.
pub record Pool (F : Type 0) : Type 0 where
  pub pooled_true : List (List F)
  pub pooled_pred : List (List F)
  pub pooled_anchor : List F
  pub used : ℕ

-- A candidate fitted and scored on the holdout.
pub record Holdout (F : Type 0) : Type 0 where
  pub metrics : Metrics F
  pub fit_seconds : F
  pub predict_seconds : F
  pub predict_latency_ms : F
  pub model_size_bytes : ℕ

-- The libraries and the rest of the program, as a run calls them; `none` is an exception.
pub record Tools (V F : Type 0) : Type 0 where
  -- `params_hash`
  pub digest : Candidate V → ℕ
  -- `random.Random(seed).sample`
  pub sample : List (Candidate V) → ℕ → List (Candidate V)
  -- `build_dataset`
  pub build_dataset : Option (Dataset F)
  -- Building, fitting and scoring on the holdout.
  pub fit_holdout : Dataset F → Candidate V → Option (Holdout F)
  -- Building and fitting on the training rows, and the predictions for the others.
  pub fit_predict :
      Dataset F → Candidate V → (train test : List (DataRow F)) → Option (List (List F))
  -- `classification_metrics` or `regression_metrics`, by the task.
  pub pooled_metrics : Task → Pool F → Metrics F
  -- `sorted(set(decision_dates))`
  pub sessions : List (DataRow F) → List ℕ
  -- `get_estimator(key).baseline`
  pub baseline : ℕ → Option Bool
  -- The texts "voting_ensemble" and "estimators", and `",".join`.
  pub voting_ensemble : ℕ
  pub estimators : ℕ
  pub join : List ℕ → V
