-- ===== src/Feed/Signals.antt =====
-- Building and sending the weekly signals: `generate_weekly_signals`, `deliver_signal` and
-- `send_weekly_signals` of signalfeed/services.py, and signalfeed/delivery.py.
use automated_stock_trading.Common.{
  ℕ, Bool, true, false, Option, none, some, List, [], ◌∷◌, ◌&&◌, ◌||◌, ◌==◌, if◌then◌else◌,
}
use automated_stock_trading.Floats.{Floats}
use automated_stock_trading.Feed.Dates.{anchor_monday, friday_of}
use automated_stock_trading.Modeling.Targets.{
  Ahead, Spec, Checked, validate_spec, derive_target_date,
}
use automated_stock_trading.Feed.Rows.{
  TargetType, flat, pending, suppressed, error, Channel, email, webhook, telegram, blank,
  prediction_failed, BoardRow, TradingModel, WatchItem, WeeklySignal,
}
use automated_stock_trading.Feed.Gate.{GateResult, evaluate_gate}
use automated_stock_trading.Feed.Sizing.{Rounds, interpret, suggest_size}

-- `deliver`: the channels wanted that accepted the message, in the order of `CHANNELS`. `none` stands
-- for a list that is missing or empty, which means all of them.
abbrev pub same_channel : Channel → Channel → Bool
same_channel email email = true
same_channel webhook webhook = true
same_channel telegram telegram = true
same_channel _ _ = false

abbrev pub is_wanted : List Channel → Channel → Bool
is_wanted [] c = false
is_wanted (d ∷ ds) c = same_channel d c || is_wanted ds c

abbrev pub wants : Option (List Channel) → Channel → Bool
wants none c = true
wants (some ds) c = is_wanted ds c

unfoldable pub keep_if : Bool → Channel → List Channel → List Channel
keep_if true c cs = c ∷ cs
keep_if false c cs = cs

unfoldable pub deliver : (accepts : Channel → Bool) → Option (List Channel) → List Channel
unfolding keep_if
deliver accepts channels = keep_if (wants channels email && accepts email) email (
    keep_if (wants channels webhook && accepts webhook) webhook
      (keep_if (wants channels telegram && accepts telegram) telegram []))

-- What the feed asks of the modeling application for a week: the leaderboard built once, and one
-- that the gate may build itself; and the last close before the week and a prediction, each for a
-- watch item. `none` is an exception, or a value that is missing.
pub record Modeling (F : Type 0) : Type 0 where
  pub board : Option (List (BoardRow F))
  pub built_by_gate : Option (List (BoardRow F))
  pub reference_close : ℕ → ℕ → Option F
  pub predict : TradingModel F → ℕ → ℕ → Option ℕ → Option (Option F)

-- `validate_spec(...)["type"]`, or `None` where it raises.
abbrev pub type_of : Checked Spec → Option TargetType
type_of (Checked.error e) = none
type_of (Checked.ok (Spec.ahead_by Ahead.horizon_close h)) = some TargetType.horizon_close
type_of (Checked.ok (Spec.ahead_by Ahead.horizon_return h)) = some TargetType.horizon_return
type_of (Checked.ok (Spec.ahead_by Ahead.direction h)) = some TargetType.direction
type_of (Checked.ok (Spec.anchored entry exit)) = some TargetType.weekday_anchored
type_of (Checked.ok (Spec.steps_of n)) = some TargetType.multistep

-- `SignalOutcome`
pub record SignalOutcome (F : Type 0) : Type 0 where
  pub signal : WeeklySignal F
  pub delivered : Bool
  pub channels : List Channel

-- The counts of the summary of `send_weekly_signals`.
pub record Summary : Type 0 where
  pub generated : ℕ
  pub sent_count : ℕ
  pub suppressed_count : ℕ
  pub flat_count : ℕ
  pub errors : ℕ

module _ {F : Type 0} where
  -- `WatchItem.objects.filter(is_active=True)`
  abbrev pub active_items : List (WatchItem F) → List (WatchItem F)
  active_items [] = []
  active_items (item ∷ items) =
      if item.is_active then item ∷ active_items items else active_items items

  -- The row of a signal: one for each instrument, model and target date.
  abbrev pub is_same_call : WeeklySignal F → WeeklySignal F → Bool
  is_same_call s r =
      r.instrument == s.instrument
      && r.trading_model == s.trading_model
      && r.target_date == s.target_date

  -- What `update_or_create` makes of a row that is there: the columns that are not among the defaults
  -- stay.
  unfoldable pub updated : WeeklySignal F → WeeklySignal F → WeeklySignal F
  updated s old = record s {
    channels = old.channels;
    sent_at = old.sent_at;
    actual_close = old.actual_close;
    actual_return_pct = old.actual_return_pct;
    was_correct = old.was_correct;
  }

  -- `update_or_create`: the signal as it now stands, and the table.
  unfoldable pub update_or_create :
      WeeklySignal F → List (WeeklySignal F) → WeeklySignal F × List (WeeklySignal F)
  unfolding updated
  update_or_create s [] = (s, s ∷ [])
  update_or_create s (r ∷ rs) =
      let (s', rest) = update_or_create s rs in
      if is_same_call s r then (updated s r, updated s r ∷ rs) else (s', r ∷ rest)

  -- `sig.save(update_fields=["channels", "status", "sent_at", ...])`
  unfoldable pub save_sent : WeeklySignal F → List (WeeklySignal F) → List (WeeklySignal F)
  save_sent s [] = []
  save_sent s (r ∷ rs) =
      let rest = save_sent s rs in
      if is_same_call s r
      then record r { channels = s.channels; status = s.status; sent_at = s.sent_at } ∷ rs
      else r ∷ rest

module _ {F : Type 0} ⦃f : Floats F⦄ where
  -- What a signal holds before its outcome is known: `base_defaults`.
  abbrev pub base_signal :
      Modeling F → WatchItem F → (monday : ℕ) → Option ℕ → GateResult F → WeeklySignal F
  base_signal md item monday derived gate = record {
    instrument = item.instrument;
    trading_model = item.trading_model.id;
    as_of = monday;
    target_date = elim derived [ none ↦ friday_of monday | some d ↦ d ];
    direction = flat;
    expected_return_pct = none;
    predicted_close = none;
    reference_close = md.reference_close item.instrument monday;
    flat_threshold_pct = item.min_expected_move_pct;
    confidence = elim gate.stats [ none ↦ none | some s ↦ s.directional_accuracy ];
    size = none;
    status = error;
    suppression_reason = prediction_failed;
    channels = [];
    sent_at = none;
    actual_close = none;
    actual_return_pct = none;
    was_correct = none;
  }

  -- `outcome_defaults`, for a prediction that raised or returned.
  unfoldable pub with_outcome :
      Rounds F → WatchItem F → GateResult F → WeeklySignal F → Option (Option F) → WeeklySignal F
  with_outcome r item gate s none = s
  with_outcome r item gate s (some value) =
      let (close, expected, way) =
        interpret (type_of (validate_spec item.trading_model.target_spec)) value s.reference_close
          item.min_expected_move_pct in
      let s' = record s {
        predicted_close = close;
        expected_return_pct = expected;
        direction = way;
      } in
      if gate.passed
      then record s' {
        status = pending;
        suppression_reason = blank;
        size = suggest_size r item way s.confidence s.reference_close;
      }
      else record s' { status = suppressed; suppression_reason = gate.reason }

  abbrev pub gate_of : Modeling F → WatchItem F → GateResult F
  gate_of md item = evaluate_gate md.built_by_gate item (some item.trading_model) md.board

  -- The body of the loop of `generate_weekly_signals` once the target date is derived, up to the table.
  unfoldable pub built_signal :
      Rounds F → Modeling F → (monday : ℕ) → WatchItem F → (derived : Option ℕ) → WeeklySignal F
  unfolding with_outcome
  built_signal r md monday item derived =
      let gate = gate_of md item in
      let s = base_signal md item monday derived gate in
      with_outcome r item gate s (
        md.predict item.trading_model item.instrument monday
          (elim derived [ none ↦ some (friday_of monday) | some d ↦ none ]))

  -- `derive_target_date` raises at a specification that is not valid.
  unfoldable pub build_signal :
      Rounds F → Modeling F → (monday : ℕ) → WatchItem F → Checked (WeeklySignal F)
  unfolding built_signal derive_target_date
  build_signal r md monday item = elim (derive_target_date item.trading_model.target_spec monday) [
    | Checked.error e ↦ Checked.error e
    | Checked.ok derived ↦ Checked.ok (built_signal r md monday item derived)
  ]

  abbrev pub with_signal :
      WeeklySignal F → Checked (List (WeeklySignal F)) → Checked (List (WeeklySignal F))
  with_signal s (Checked.ok ss) = Checked.ok (s ∷ ss)
  with_signal s (Checked.error e) = Checked.error e

  -- The loop over the watch items: the signals, or the exception that ends it, and the table.
  unfoldable pub generate_from :
      Rounds F
      → Modeling F
      → (monday : ℕ) → List (WatchItem F)
      → List (WeeklySignal F)
      → Checked (List (WeeklySignal F)) × List (WeeklySignal F)
  unfolding build_signal update_or_create
  generate_from r md monday [] rows = (Checked.ok [], rows)
  generate_from r md monday (item ∷ items) rows = elim (build_signal r md monday item) [
    | Checked.error e ↦ (Checked.error e, rows)
    | Checked.ok s ↦
        (let (s', rows') = update_or_create s rows in
          let (rest, end) = generate_from r md monday items rows' in (with_signal s' rest, end))
  ]

  -- `generate_weekly_signals`: the signals built, or an exception, and the table.
  unfoldable pub generate_weekly_signals :
      Rounds F
      → Modeling F
      → (as_of : ℕ) → List (WatchItem F)
      → List (WeeklySignal F)
      → Checked (List (WeeklySignal F)) × List (WeeklySignal F)
  unfolding generate_from
  generate_weekly_signals r md as_of items rows =
      generate_from r md (anchor_monday as_of) (active_items items) rows
