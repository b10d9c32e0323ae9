-- ===== src/Backtest/Tests.antt =====
-- Runs of a back-test, with whole numbers for floats.
use automated_stock_trading.Common.{
  ℕ, zero, suc, ◌+◌, ◌-◌, ◌*◌, ◌/◌, ◌≡◌, ◌⊎◌, ◌==◌, refl, if◌then◌else◌, true, false, none, some,
  List, [], ◌∷◌, map, ltb, leb, arith,
}
use automated_stock_trading.Floats.{Floats}
use automated_stock_trading.Folds.Arguments.{Scheme}
use automated_stock_trading.Folds.Sessions.{generate_folds}
use automated_stock_trading.Folds.Split.{DataRow, fold_split}
use automated_stock_trading.Backtest.Positions.{Position, short, flat, long, Target}
use automated_stock_trading.Backtest.Trades.{Point, Trade, trade_log}
use automated_stock_trading.Backtest.Replayed.{IsLog, Tells, trade_log-Tells}
use automated_stock_trading.Backtest.Rows.{
  FitMode, Backtest, running, success, failed, Store, Dataset, Tools,
}
use automated_stock_trading.Backtest.Engine.{Simulated, simulate_all, scorer, run_backtest}
use automated_stock_trading.Backtest.Dates.{AreCurvesOf, simulate_all-AreCurvesOf}
use automated_stock_trading.Backtest.Saved.{Saves, Fails, run_backtest_lem}
use automated_stock_trading.Backtest.Overlap.{run_backtest_overlap}

instance whole : Floats ℕ
whole = record {
  of_int = λ n. n;
  add = λ a b. a + b;
  sub = λ a b. a - b;
  mul = λ a b. a * b;
  div = λ a b. a / b;
  neg = λ a. 0 - a;
  lt = λ a b. ltb a b;
  le = λ a b. leb a b;
  is_finite = λ a. true;
  int_floor_div = λ a b. if b == 0 then none else some (a / b);
}

abbrev point : ℕ → ℕ → Position → Point ℕ
point d c p = record { date = d; close = c; position = p }

-- Long for two intervals, flat, then short until the end.
abbrev points : List (Point ℕ)
points = point 3 10 long ∷ point 4 12 long ∷ point 7 11 flat ∷ point 8 9 short ∷ point 9 8 long ∷ []

trade_log-Tells_example :
    (ts : List (Trade ℕ)) × (trade_log 100 0 points ≡ some ts) × IsLog 0 ts × Tells ts points
trade_log-Tells_example = trade_log-Tells 100 0 points (omega arith)

abbrev row : ℕ → DataRow ℕ
row d = record {
  index = d * 10;
  decision_date = d;
  available_at = some (d * 10 + 10);
  target_date = d + 1;
  label = (d + 5) ∷ [];
  anchor = d + 4;
  instrument = 2;
}

abbrev days : ℕ → List ℕ
days zero = []
days (suc n) = (20 - n) ∷ days n

abbrev dataset : Dataset ℕ
dataset = record {
  rows = map row (days 14);
  feature_names = [];
  is_clf = false;
  multioutput = false;
}

abbrev tools : Tools ℕ
tools = record {
  build_dataset = λ bt. some dataset;
  sessions = λ rows. map (λ r. r.decision_date) rows;
  fit_predict = λ ds train test. some (map (λ r. (r.anchor * 2, none)) test);
  load = λ path. none;
  score = λ c t p a. record { skill_vs_naive = none; mae = none; r2 = none };
  round = λ a. a;
}

-- Folds of ten sessions to train on and two to test.
abbrev stepping : (step : ℕ) → Backtest ℕ
stepping step = record {
  model = record {
    id = 1;
    target_spec = 4;
    artifact_path = none;
    train_start = none;
    train_end = none;
  };
  target_type = Target.horizon_close;
  fit_mode = FitMode.walk_forward;
  training_run = none;
  scheme = Scheme.expanding;
  train_span = 10;
  test_span = 2;
  step = step;
  gap = 0;
  long_threshold = 0;
  allow_short = false;
  initial_cash = 1000;
  commission_bps = 0;
  slippage_bps = 0;
}

abbrev blank : Store ℕ
blank = record {
  folds = [];
  predictions = [];
  trades = [];
  run = record {
    id = 6;
    status = running;
    n_folds = 0;
    n_predictions = 0;
    n_trades = 0;
    looks_leaky = false;
    accuracy = none;
    equity_curve = [];
  };
}

simulate_all-AreCurvesOf_example :
    (sim : Simulated ℕ) × (simulate_all (stepping 2) 6 1000 ((2, points) ∷ []) ≡ some sim)
    × AreCurvesOf ((2, points) ∷ []) sim.curves
simulate_all-AreCurvesOf_example = simulate_all-AreCurvesOf (stepping 2) 6 1000 ((2, points) ∷ [])

run_backtest_lem_example :
    Saves blank (run_backtest tools (stepping 2) blank)
    ⊎ Fails blank (run_backtest tools (stepping 2) blank)
run_backtest_lem_example = run_backtest_lem tools (stepping 2) blank

-- Two folds that do not overlap are saved, with one trade.
saved_counts :
    ((run_backtest tools (stepping 2) blank).run.status ≡ success)
    × ((run_backtest tools (stepping 2) blank).run.n_folds ≡ 2)
    × ((run_backtest tools (stepping 2) blank).run.n_predictions ≡ 4)
    × ((run_backtest tools (stepping 2) blank).run.n_trades ≡ 1)
unfolding whole run_backtest generate_folds fold_split
saved_counts = (refl, refl, refl, refl)

run_backtest_overlap_example :
    run_backtest tools (stepping 1) blank
    ≡ record blank { run = record blank.run { status = failed } }
unfolding whole scorer generate_folds fold_split
run_backtest_overlap_example =
    run_backtest_overlap tools (stepping 1) blank 1 2 refl refl (omega arith) refl refl refl
