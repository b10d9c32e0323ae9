-- ===== src/Feed/Tests.antt =====
-- Runs of the weekly signals, with whole numbers for floats.
use automated_stock_trading.Common.{
  select, ℕ, ◌+◌, ◌-◌, ◌*◌, ◌/◌, ◌≤◌, ◌≡◌, ◌↔◌, ◌==◌, if◌then◌else◌, true, false, none, some,
  Option, List, map, [], ◌∷◌, refl, ltb, leb, All, length, arith,
}
use automated_stock_trading.Floats.{Floats, lt_float, float}
use automated_stock_trading.Feed.Dates.{weekday, anchor_monday, anchor_monday_lem}
use automated_stock_trading.Feed.Rows.{
  up, sent, blank, Stats, TradingModel, WatchItem, WeeklySignal,
}
use automated_stock_trading.Feed.Gate.{evaluate_gate, Clears}
use automated_stock_trading.Feed.Figures.{IsJudgedBy, evaluate_gate_iff}
use automated_stock_trading.Feed.Sizing.{
  Rounds, interpret, fraction_of, cap_fraction, fraction_of_bounds,
}
use automated_stock_trading.Feed.Recap.{recap_weekly_signals, recap_weekly_signals-again}
use automated_stock_trading.Feed.HitRate.{
  Counts, IsSince, IsPast, trailing_hit_rate, trailing_hit_rate_lem,
}
use automated_stock_trading.Feed.Signals.{
  Modeling, deliver, SignalOutcome, Summary, active_items, generate_weekly_signals,
}
use automated_stock_trading.Feed.Sending.{Sending, send_weekly_signals}
use automated_stock_trading.Feed.Delivery.{IsSettled, send_weekly_signals-IsSettled}
use automated_stock_trading.Feed.Stored.{Returned}
use automated_stock_trading.Modeling.Targets.{
  Ahead, SpecType, dict, no_dict, SpecError, no_type, Checked,
}
use automated_stock_trading.Feed.Counts.{send_weekly_signals_counts}

instance naturals : Floats ℕ
naturals = record {
  of_int = λ n. n;
  add = λ a b. a + b;
  sub = λ a b. a - b;
  mul = λ a b. a * b;
  div = λ a b. a / b;
  neg = λ a. 0 - a;
  lt = λ a b. ltb a b;
  le = λ a b. leb a b;
  is_finite = λ a. true;
  int_floor_div = λ a b. if b == 0 then none else some (a / b);
}

anchor_monday_lem_example :
    (weekday (anchor_monday 12) ≡ 0)
    × (12 ≤ anchor_monday 12 + 4)
    × (anchor_monday 12 ≤ 12 + 2)
    × (8 ≤ 12 + 2 → 12 ≤ 8 + 4 → anchor_monday 12 ≡ 8)
    × (anchor_monday 12 ≡ 8 → (8 ≤ 12 + 2) × (12 ≤ 8 + 4))
anchor_monday_lem_example = anchor_monday_lem 12 8 (omega arith) (omega arith) refl

abbrev model : TradingModel ℕ
model = record {
  id = 5;
  is_active = true;
  has_artifact = true;
  holdout = some (record { is_live = false; directional_accuracy = some 60; skill = none });
  target_spec = dict (some (SpecType.ahead Ahead.horizon_close)) (λ k. none);
}

abbrev item : WatchItem ℕ
item = record {
  instrument = 3;
  trading_model = model;
  is_active = true;
  min_directional_accuracy = 55;
  min_skill = 0;
  min_expected_move_pct = 1;
  sizing_capital = 1000;
  max_position_pct = 100;
  kelly_fraction = 0;
}

evaluate_gate_iff_example : ((evaluate_gate none item (some model) none).passed ≡ true) ↔ (
    (true ≡ true)
    × (true ≡ true)
    × ((s : Stats ℕ) × IsJudgedBy none model none s × Clears item (some s)))
evaluate_gate_iff_example = evaluate_gate_iff none item model none

fraction_of_bounds_example :
    (lt_float {F = ℕ} (fraction_of 100 (some 60) 0) (float 0) ≡ false)
    × (lt_float {F = ℕ} (cap_fraction 100) (fraction_of 100 (some 60) 0) ≡ false)
unfolding naturals
fraction_of_bounds_example =
    fraction_of_bounds {F = ℕ} 100 0 (some 60) (λ x. ground arith) (λ x y h. ground arith)

abbrev call : WeeklySignal ℕ
call = record {
  instrument = 3;
  trading_model = 5;
  as_of = 8;
  target_date = 12;
  direction = up;
  expected_return_pct = some 200;
  predicted_close = some 60;
  reference_close = some 20;
  flat_threshold_pct = 1;
  confidence = some 60;
  size = none;
  status = sent;
  suppression_reason = blank;
  channels = [];
  sent_at = some 900;
  actual_close = none;
  actual_return_pct = none;
  was_correct = none;
}

-- Every close is 40.
abbrev closes : ℕ → ℕ → Option ℕ
closes i d = some 40

recap_weekly_signals-again_example :
    let (r, rows') = recap_weekly_signals closes 14 90 (call ∷ []) in
    recap_weekly_signals closes 14 90 rows' ≡ (record r { scored_now = 0 }, rows')
recap_weekly_signals-again_example = recap_weekly_signals-again closes 14 90 (call ∷ [])

abbrev rounds : Rounds ℕ
rounds = record { round_to = λ n x. x; floor_int = λ x. x }

abbrev forecasts : Modeling ℕ
forecasts = record {
  board = none;
  built_by_gate = none;
  reference_close = λ i d. some 20;
  predict = λ m i d t. some (some 60);
}

abbrev sending : Sending ℕ
sending = record {
  dry_run = false;
  include_flat = false;
  channels = none;
  now = 900;
  accepts = λ s c. true;
}

send_weekly_signals-IsSettled_example :
    let (result, end) = send_weekly_signals rounds forecasts sending 9 (item ∷ []) [] in
    Returned (λ (m, os). All (IsSettled forecasts sending (active_items (item ∷ [])) end) os) result
send_weekly_signals-IsSettled_example =
    send_weekly_signals-IsSettled rounds forecasts sending 9 (item ∷ []) []

send_weekly_signals_counts_example :
    let (signals, rows') = generate_weekly_signals rounds forecasts 9 (item ∷ []) [] in
    let (result, end) = send_weekly_signals rounds forecasts sending 9 (item ∷ []) [] in
    ((ss : List (WeeklySignal ℕ))
      → signals ≡ Checked.ok ss
      → (m : Summary) × (os : List (SignalOutcome ℕ)) × (result ≡ Checked.ok (m, os))
        × (m.generated ≡ length ss)
        × (m.sent_count ≡ length (select (λ o. o.delivered) os))
        × (m.sent_count + m.suppressed_count + m.errors ≤ m.generated)
        × (sending.dry_run ≡ true → (m.sent_count ≡ 0) × (end ≡ rows')))
    × ((e : SpecError) → signals ≡ Checked.error e → (result ≡ Checked.error e) × (end ≡ rows'))
send_weekly_signals_counts_example =
    send_weekly_signals_counts rounds forecasts sending 9 (item ∷ []) []

-- The call is sent, and so is its row.
sent_call :
    (map (λ r. r.status) (send_weekly_signals rounds forecasts sending 9 (item ∷ []) []).1
      ≡ sent ∷ [])
    × (map (λ r. r.target_date) (send_weekly_signals rounds forecasts sending 9 (item ∷ []) []).1
        ≡ 12 ∷ [])
unfolding send_weekly_signals naturals anchor_monday evaluate_gate interpret deliver
sent_call = (refl, refl)

-- One watch item whose specification is no dict ends the run.
abbrev broken_item : WatchItem ℕ
broken_item = record item { trading_model = record model { target_spec = no_dict } }

broken_run :
    send_weekly_signals rounds forecasts sending 9 (broken_item ∷ item ∷ []) []
    ≡ (Checked.error no_type, [])
unfolding send_weekly_signals
broken_run = refl

trailing_hit_rate_lem_example :
    let (r, rows') = recap_weekly_signals closes 14 90 (call ∷ []) in
    (trailing_hit_rate 14 90 rows' ≡ (r.window_total, r.window_hits))
    × Counts (IsSince 14 90) rows' (r.window_total, r.window_hits)
    × Counts (IsPast 14 7) rows' (r.week_total, r.week_hits)
trailing_hit_rate_lem_example = trailing_hit_rate_lem closes 14 90 (call ∷ []) ((λ h. refl), tt)
