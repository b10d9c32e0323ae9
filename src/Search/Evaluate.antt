-- ===== src/Search/Evaluate.antt =====
-- `scalar_score` of modelsearch/spaces.py, and `_score_candidate_walk_forward` and `_evaluate` of
-- modelsearch/search.py.
use automated_stock_trading.Common.{
  ℕ, ◌+◌, ◌==◌, false, Option, none, some, List, [], ◌∷◌, ◌++◌, map, if◌then◌else◌,
}
use automated_stock_trading.Floats.{Floats}
use automated_stock_trading.Folds.Sessions.{Fold}
use automated_stock_trading.Folds.Split.{DataRow, fold_split}
use automated_stock_trading.Search.Space.{Candidate}
use automated_stock_trading.Search.Rows.{
  mae, rmse, directional_accuracy, accuracy, ScoreKey, neg_mae, neg_rmse, plain, Task, regression,
  classification, Metrics, Evaluation, scored, failed, Dataset, Pool, Holdout, Tools, Result,
}

infixl 5 ◌>>=◌
abbrev pub ◌>>=◌ {ℓ κ} : {A : Type ℓ} {B : Type κ} → Option A → (A → Option B) → Option B
none >>= f = none
some a >>= f = f a

-- DEFAULT_SCORE
abbrev pub default_score : Task → ScoreKey
default_score regression = plain directional_accuracy
default_score classification = plain accuracy

module _ {F : Type 0} where
  -- What the row of a walk-forward candidate stores; no score is a `ValueError`.
  with_walk_forward :
      Holdout F → (score : Option F) → Option F × Metrics F × ℕ → Option (Evaluation F)
  with_walk_forward h score (none, metrics, used) = none
  with_walk_forward h score (some s, metrics, used) = some (
      scored (some s) metrics (some (h.metrics, score)) h.fit_seconds h.predict_seconds
        h.predict_latency_ms h.model_size_bytes (some used))

  or_failed : Option (Evaluation F) → Evaluation F
  or_failed none = failed
  or_failed (some e) = e

module _ {F : Type 0} ⦃f : Floats F⦄ where
  negated : Option F → Option F
  negated none = none
  negated (some v) = some (f.neg v)

  -- An empty dictionary has no value for any key.
  unfoldable pub scalar_score : Metrics F → ScoreKey → Option F
  unfolding negated
  scalar_score metrics neg_mae = negated (metrics mae)
  scalar_score metrics neg_rmse = negated (metrics rmse)
  scalar_score metrics (plain key) = metrics key

  summary : ScoreKey → Metrics F → (used : ℕ) → Option F × Metrics F × ℕ
  unfolding scalar_score
  summary key metrics used =
      if used == 0 then (none, (λ k. none), 0) else (scalar_score metrics key, metrics, used)

module _ {V F : Type 0} ⦃f : Floats F⦄ where
  -- A fold that has enough rows: refit, predict, and pool.
  pool_fold :
      Tools V F
      → Dataset F
      → Candidate V
      → Pool F
      → Option (List (DataRow F) × List (DataRow F))
      → Option (Pool F)
  pool_fold tools dataset c pool none = some pool
  pool_fold tools dataset c pool (some (train, test)) = do
    pred ← tools.fit_predict dataset c train test
    some (record {
      pooled_true = pool.pooled_true ++ map (λ r. r.label) test;
      pooled_pred = pool.pooled_pred ++ pred;
      pooled_anchor =
          pool.pooled_anchor ++ (if dataset.multioutput then [] else map (λ r. r.anchor) test);
      used = pool.used + 1;
    })

  -- The loop over the folds.
  pool_folds : Tools V F → Dataset F → Candidate V → Pool F → List Fold → Option (Pool F)
  unfolding pool_fold
  pool_folds tools dataset c pool [] = some pool
  pool_folds tools dataset c pool (fold ∷ folds) = do
    next ← pool_fold tools dataset c pool (fold_split fold dataset.rows)
    pool_folds tools dataset c next folds

  -- `_score_candidate_walk_forward`; a count of no folds goes with no score.
  unfoldable pub score_candidate_walk_forward :
      Tools V F → Dataset F → Candidate V → List Fold → ScoreKey → Option (Option F × Metrics F × ℕ)
  unfolding pool_folds summary
  score_candidate_walk_forward tools dataset c folds key = do
    pool ←
        pool_folds tools dataset c
          (record { pooled_true = []; pooled_pred = []; pooled_anchor = []; used = 0 }) folds
    some (summary key (tools.pooled_metrics dataset.task pool) pool.used)

  -- The `try` of `_evaluate`; `folds` is `none` in holdout mode.
  try_candidate :
      Tools V F → Dataset F → ScoreKey → Option (List Fold) → Candidate V → Option (Evaluation F)
  unfolding score_candidate_walk_forward with_walk_forward scalar_score
  try_candidate tools dataset key none c = do
    h ← tools.fit_holdout dataset c
    some (
        scored (scalar_score h.metrics key) h.metrics none h.fit_seconds h.predict_seconds
          h.predict_latency_ms h.model_size_bytes none)
  try_candidate tools dataset key (some folds) c = do
    h ← tools.fit_holdout dataset c
    w ← score_candidate_walk_forward tools dataset c folds key
    with_walk_forward h (scalar_score h.metrics key) w

  -- `_evaluate`, for the object `id` of the run `run`.
  unfoldable pub evaluate :
      Tools V F
      → Dataset F
      → ScoreKey
      → Option (List Fold)
      → (run id : ℕ) → Candidate V
      → Result V F
  unfolding try_candidate or_failed
  evaluate tools dataset key folds run id c = record {
    id = id;
    run = run;
    candidate = c;
    params_hash = tools.digest c;
    evaluation = or_failed (try_candidate tools dataset key folds c);
    rank = none;
    is_pareto = false;
  }
