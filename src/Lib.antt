-- ===== src/Lib.antt =====
-- Automated stock trading on the Pakistan Stock Exchange: a model of the program's trading path and
-- of its back-tests, with the theorems that make them correct.
--
-- The parts and how they interact. The trading cycle (execution/tasks.py) asks each active strategy
-- for a signal and hands it to place_order (execution/services.py), which refuses duplicates, asks
-- the risk engine (risk/engine.py, risk/checks.py) and submits to the broker of the account
-- (execution/brokers/paper.py); all of them share the tables of portfolio, execution and risk.
-- Apart from this, strategies/backtesting/engine.py replays a strategy over past bars, and two
-- walkforward.py generate the folds on which models are scored: by the back-test of a model
-- (backtesting/engine.py), which trades its forecasts, and by the model search
-- (modelsearch/search.py), which ranks candidates. The signal feed turns forecasts into
-- weekly calls, gates, sizes and delivers them, and grades them on Friday.
--
-- Which file models what.
--   Ledger: the tables as a record of lists, the account object in memory beside them (World), and the
--     queries; amounts and prices in ticks of 0.0001, percentages in hundredths of a percent, moments
--     and days by number. Ledger/Positions and Ledger/Filing have the lemmas on the tables.
--   Risk: get_opening_equity, check_max_daily_loss, check_max_position_size, _risk_profile, evaluate.
--   Broker: PaperBroker.submit_order, _fill_buy, _fill_sell, _reject, cancel_order and get_broker, with
--     the transaction that restores the database, and not the object in memory, at an exception.
--   Orders: _is_duplicate, _place_order, _notify and place_order.
--   Cycle: run_trading_cycle, _run_one, _load_bars and _determine_quantity.
--   Folds: Folds/Rows is forecasting/backtesting/walkforward.py, Folds/Sessions is
--     backtesting/walkforward.py, Folds/Arguments the checks that both make.
--   Replay: run_backtest of strategies/backtesting/engine.py; Replay/Metrics the figures of its result.
--   Feed: signalfeed. Feed/Dates has anchor_monday, Feed/Gate evaluate_gate, Feed/Sizing _interpret and
--     suggest_size, Feed/Signals generate_weekly_signals and deliver, Feed/Sending deliver_signal and
--     send_weekly_signals, Feed/Recap recap_weekly_signals, Feed/HitRate trailing_hit_rate.
--   Folds/Split: the rows that a fold trains on and tests, which backtesting/engine.py and
--     modelsearch/search.py share; a row stands for one of modeling/dataset.py.
--   Backtest: backtesting/. Backtest/Positions has positions_from_forecast, Backtest/Trades _trade_log,
--     Backtest/Curves simulate_instrument and combine_equity_curves, all of metrics.py; Backtest/Scoring
--     _score_walk_forward, Backtest/Frozen _score_frozen, Backtest/Engine _execute and run_backtest, of
--     engine.py.
--   Search: modelsearch/. Search/Space has expand of spaces.py; Search/Evaluate _evaluate and
--     _score_candidate_walk_forward, Search/Pareto pareto_flags, Search/Run the sweep and
--     _auto_ensemble_candidates, Search/Save the ranking and run_search, of search.py.
--   Modeling: modeling/targets.py. Modeling/Targets has validate_spec, decision_filter and
--     derive_target_date; Modeling/Labels and Modeling/Build task_of and build_target.
--   Strategies: strategies/registry.py and strategies/manual.py.
--   Market: marketdata/services.py.
--   Schedules: AutomaticStockTrading/schedules.py.
--   Floats, Common: the interface of floating-point numbers, and the shared names.
-- The modules below each part hold its theorems, and Tests its runs on concrete rows.
--
-- What stands for code outside the repository. A database column and decimal.Decimal are the two
-- operations of Decimals, which no theorem assumes anything of; a float is a type with the
-- operations of Floats, of which four theorems assume laws of its comparisons; datasets, fits,
-- predictions, accuracy metrics, digests and random samples are functions of a record of Tools,
-- where none is an exception; building a strategy and generating its signals are functions that may
-- raise. Quantities are natural numbers, as the columns are positive integers.
--
-- Bounds and fuel. The loop of each generator of folds runs on one more than the number of rows:
-- the end of training starts above 0 and grows by at least 1 a round. The loop of the trade log
-- runs on one more than the number of points, as each round drops at least one. All other loops are
-- over lists.
--
-- What is not modelled: the web views and the API; training and prediction, which the feed takes as
-- parameters; the providers of market data; the form checks (clean) of back-tests and
-- searches; errors of the database other than its constraints; and concurrency between two
-- requests, as each call here runs alone.
pub mod Common
pub mod Ledger
pub mod Risk
pub mod Broker
pub mod Orders
pub mod Cycle
pub mod Folds
pub mod Floats
pub mod Replay
pub mod Feed
pub mod Schedules
pub mod Strategies
pub mod Market
pub mod Search
pub mod Backtest
pub mod Modeling
