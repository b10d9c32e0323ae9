-- ===== src/Backtest/Engine.antt =====
-- `_execute` and `run_backtest` of backtesting/engine.py: the trades of the scored forecasts, and what is
-- saved in one transaction.
use automated_stock_trading.Common.{
  ℕ, max, ◌==◌, ◌&&◌, ltb, Bool, Option, none, some, List, [], ◌∷◌, ◌++◌, map, if◌then◌else◌,
  exists, length, sort_by,
}
use automated_stock_trading.Floats.{Floats, ◌⊘◌, float}
use automated_stock_trading.Backtest.Trades.{Point}
use automated_stock_trading.Backtest.Curves.{simulate_instrument, combine_equity_curves}
use automated_stock_trading.Backtest.Rows.{
  FitMode, walk_forward, frozen_artifact, Backtest, BacktestFold, BacktestPrediction, BacktestTrade,
  success, failed, BacktestRun, Store, Dataset, Tools, Sink,
}
use automated_stock_trading.Backtest.Scoring.{
  score_walk_forward, looks_leaky, refuse_if, ◌>>=◌, ◌>>◌,
}
use automated_stock_trading.Backtest.Frozen.{score_frozen}

module _ {F : Type 0} where
  abbrev pub empty_sink : Sink F
  empty_sink = record {
    pred_rows = [];
    series = [];
    pooled_true = [];
    pooled_pred = [];
    pooled_anchor = [];
    fold_rows = [];
    used_folds = 0;
  }

  -- `points.sort(key=...)`
  abbrev pub later : Point F → Point F → Bool
  later a b = ltb b.date a.date

  -- The points of days that were not seen, with the set as a list.
  unfoldable pub deduped : (seen : List ℕ) → List (Point F) → List (Point F)
  deduped seen [] = []
  deduped seen (p ∷ ps) =
      let known = exists (λ d. d == p.date) seen in
      let rest = deduped (if known then seen else p.date ∷ seen) ps in
      if known then rest else p ∷ rest

  -- The constraints `unique_fold_per_run` and `unique_backtest_prediction`.
  abbrev pub same_fold : BacktestFold F → BacktestFold F → Bool
  same_fold a b = a.run == b.run && a.fold_index == b.fold_index

  abbrev pub same_prediction : BacktestPrediction F → BacktestPrediction F → Bool
  same_prediction a b =
      a.run == b.run && (a.instrument == b.instrument && a.target_date == b.target_date)

-- `bulk_create` under a constraint.
unfoldable pub bulk_create : {A : Type 0} → (A → A → Bool) → List A → List A → Option (List A)
bulk_create clash table [] = some table
bulk_create clash table (r ∷ rows) =
    let rest = bulk_create clash (table ++ r ∷ []) rows in
    if exists (clash r) table then none else rest

-- What the loop over instruments collects.
pub record Simulated (F : Type 0) : Type 0 where
  pub curves : List (List (ℕ × F))
  pub trade_rows : List (BacktestTrade F)

module _ {F : Type 0} ⦃f : Floats F⦄ where
  -- The loop over instruments; it finds no result only where the trade log does.
  unfoldable pub simulate_all :
      Backtest F → (run : ℕ) → (per_alloc : F) → List (ℕ × List (Point F)) → Option (Simulated F)
  unfolding sort_by deduped simulate_instrument
  simulate_all bt run per_alloc [] = some (record { curves = []; trade_rows = [] })
  simulate_all bt run per_alloc ((symbol, points) ∷ series) = do
    one ←
        simulate_instrument per_alloc bt.commission_bps bt.slippage_bps
          (deduped [] (sort_by later points))
    rest ← simulate_all bt run per_alloc series
    some (record {
      curves = one.0 ∷ rest.curves;
      trade_rows =
          map (λ t. record { run = run; instrument = symbol; trade = t }) one.1 ++ rest.trade_rows;
    })

  -- The run, once everything else is saved.
  abbrev pub finished :
      Tools F → Backtest F → Dataset F → Sink F → Simulated F → BacktestRun F → BacktestRun F
  finished tools bt ds sink sim run =
      let accuracy = tools.score ds.is_clf sink.pooled_true sink.pooled_pred sink.pooled_anchor in
      record run {
        status = success;
        n_folds = sink.used_folds;
        n_predictions = length sink.pred_rows;
        n_trades = length sim.trade_rows;
        looks_leaky = looks_leaky (float 98 ⊘ float 100) accuracy;
        accuracy = some accuracy;
        equity_curve = combine_equity_curves sim.curves bt.initial_cash;
      }

  -- The transaction.
  unfoldable pub save_all :
      Tools F → Backtest F → Dataset F → Sink F → Simulated F → Store F → Option (Store F)
  unfolding bulk_create looks_leaky combine_equity_curves
  save_all tools bt ds sink sim s = do
    folds ← bulk_create same_fold s.folds sink.fold_rows
    predictions ← bulk_create same_prediction s.predictions sink.pred_rows
    some (record {
      folds = folds;
      predictions = predictions;
      trades = s.trades ++ sim.trade_rows;
      run = finished tools bt ds sink sim s.run;
    })

  -- The scorer of a fit mode.
  unfoldable pub scorer :
      FitMode → Tools F → Backtest F → Dataset F → (run : ℕ) → Sink F → Option (Sink F)
  unfolding score_walk_forward score_frozen
  scorer walk_forward tools bt ds run sink = score_walk_forward tools bt ds run sink
  scorer frozen_artifact tools bt ds run sink = score_frozen tools bt ds run sink

  -- `_execute` after scoring.
  unfoldable pub replay_and_save :
      Tools F → Backtest F → Dataset F → Sink F → Store F → Option (Store F)
  unfolding simulate_all save_all
  replay_and_save tools bt ds sink s = do
    refuse_if (sink.used_folds == 0)
    sim ←
        simulate_all bt s.run.id (bt.initial_cash ⊘ float (max (length sink.series) 1)) sink.series
    save_all tools bt ds sink sim s

  unfoldable pub execute : Tools F → Backtest F → Store F → Option (Store F)
  unfolding scorer replay_and_save
  execute tools bt s = do
    ds ← tools.build_dataset bt
    sink ← scorer bt.fit_mode tools bt ds s.run.id empty_sink
    replay_and_save tools bt ds sink s

  -- The `except` of `run_backtest`.
  unfoldable pub or_failed : Store F → Option (Store F) → Store F
  or_failed s none = record s { run = record s.run { status = failed } }
  or_failed s (some s') = s'

  unfoldable pub run_backtest : Tools F → Backtest F → Store F → Store F
  unfolding execute or_failed
  run_backtest tools bt s = or_failed s (execute tools bt s)
