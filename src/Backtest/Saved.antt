-- ===== src/Backtest/Saved.antt =====
-- What `run_backtest` of backtesting/engine.py saves: all of a run's rows, or nothing but its failure.
use automated_stock_trading.Common.{
  ℕ, ◌≤◌, ◌≡◌, ◌⊎◌, inl, inr, refl, false, Bool-cases, Option, none, some, List, ◌++◌, length, ◌==◌,
  arith, max,
}
use automated_stock_trading.Floats.{Floats, ◌⊘◌, float}
use automated_stock_trading.Backtest.Rows.{
  Backtest, BacktestFold, BacktestPrediction, BacktestTrade, success, failed, Store, Dataset, Tools,
  Sink,
}
use automated_stock_trading.Backtest.Scoring.{◌>>=◌}
use automated_stock_trading.Backtest.Engine.{
  empty_sink, bulk_create, same_fold, same_prediction, Simulated, simulate_all, save_all, scorer,
  replay_and_save, execute, or_failed, run_backtest,
}
use automated_stock_trading.Backtest.Counts.{
  Returns, Returns-bind, Returns-true, bulk_create-Returns, IsCounted, scorer-IsCounted,
}

module _ {F : Type 0} ⦃f : Floats F⦄ where
  -- The run has succeeded, and its rows are in the tables, as many as it says.
  abbrev pub Saves : (before after : Store F) → Type 0
  Saves s s' =
      (fs : List (BacktestFold F)) × (ps : List (BacktestPrediction F)) × (ts : List
        (BacktestTrade F))
      × (s'.run.status ≡ success)
      × (s'.folds ≡ s.folds ++ fs)
      × (s'.predictions ≡ s.predictions ++ ps)
      × (s'.trades ≡ s.trades ++ ts)
      × (s'.run.n_folds ≡ length fs)
      × (s'.run.n_predictions ≡ length ps)
      × (s'.run.n_trades ≡ length ts)
      × (1 ≤ length fs)

  -- The run has failed, and nothing but its status is written.
  abbrev pub Fails : (before after : Store F) → Type 0
  Fails s s' = s' ≡ record s { run = record s.run { status = failed } }

  save_all-Saves :
      (tools : Tools F) (bt : Backtest F) (ds : Dataset F) (sink : Sink F) (sim : Simulated F)
      (s : Store F)
      → IsCounted sink
      → 1 ≤ sink.used_folds
      → Returns (Saves s) (save_all tools bt ds sink sim s)
  unfolding save_all
  save_all-Saves tools bt ds sink sim s h used =
      Returns-bind (λ t. t ≡ s.folds ++ sink.fold_rows) (Saves s)
        (bulk_create same_fold s.folds sink.fold_rows) _
        (bulk_create-Returns same_fold s.folds sink.fold_rows)
        λ folds made.
          Returns-bind (λ t. t ≡ s.predictions ++ sink.pred_rows) (Saves s)
            (bulk_create same_prediction s.predictions sink.pred_rows) _
            (bulk_create-Returns same_prediction s.predictions sink.pred_rows)
            λ predictions predicted. (
              sink.fold_rows,
              sink.pred_rows,
              sim.trade_rows,
              refl,
              made,
              predicted,
              refl,
              h,
              refl,
              refl,
              omega arith,
            )

  replay_and_save-Saves :
      (tools : Tools F) (bt : Backtest F) (ds : Dataset F) (sink : Sink F) (s : Store F)
      → IsCounted sink
      → Returns (Saves s) (replay_and_save tools bt ds sink s)
  unfolding replay_and_save
  replay_and_save-Saves tools bt ds sink s h = elim (Bool-cases (sink.used_folds == 0)) [
    | inl e ↦ rw e tt
    | inr e ↦ rw e (simulated (some_used sink.used_folds e))
  ]
    where
      some_used : (n : ℕ) → (n == 0) ≡ false → 1 ≤ n
      some_used n e = ground arith

      series_of : Option (Simulated F)
      series_of =
          simulate_all bt s.run.id (bt.initial_cash ⊘ float (max (length sink.series) 1))
            sink.series

      simulated :
          1 ≤ sink.used_folds
          → Returns (Saves s) (series_of >>= λ sim. save_all tools bt ds sink sim s)
      simulated used =
          Returns-bind (λ _. Unit) (Saves s) series_of _ (Returns-true series_of)
            λ sim _. save_all-Saves tools bt ds sink sim s h used

  execute-Saves :
      (tools : Tools F) (bt : Backtest F) (s : Store F) → Returns (Saves s) (execute tools bt s)
  unfolding execute
  execute-Saves tools bt s =
      Returns-bind (λ _. Unit) (Saves s) (tools.build_dataset bt) _
        (Returns-true (tools.build_dataset bt))
        λ ds _.
          Returns-bind IsCounted (Saves s) (scorer bt.fit_mode tools bt ds s.run.id empty_sink) _
            (scorer-IsCounted bt.fit_mode tools bt ds s.run.id empty_sink refl)
            λ sink h. replay_and_save-Saves tools bt ds sink s h

  -- A run of a back-test never raises: either it succeeds, and its folds, predictions and trades are
  -- added to their tables, as many of each as its counts say and at least one fold; or it fails, and
  -- nothing but its status is written.
  pub run_backtest_lem :
      (tools : Tools F) (bt : Backtest F) (s : Store F)
      → Saves s (run_backtest tools bt s) ⊎ Fails s (run_backtest tools bt s)
  unfolding run_backtest or_failed
  run_backtest_lem tools bt s = go (execute tools bt s) (execute-Saves tools bt s)
    where
      go :
          (m : Option (Store F))
          → Returns (Saves s) m
          → Saves s (or_failed s m) ⊎ Fails s (or_failed s m)
      go none h = inr refl
      go (some s') h = inl h
