-- ===== src/Feed/Sending.antt =====
-- Sending the weekly signals: `deliver_signal` and `send_weekly_signals` of signalfeed/services.py.
use automated_stock_trading.Common.{
  ℕ, suc, Bool, true, false, not, Option, some, List, [], ◌∷◌, ◌&&◌, ◌||◌, if◌then◌else◌,
}
use automated_stock_trading.Floats.{Floats}
use automated_stock_trading.Modeling.Targets.{Checked}
use automated_stock_trading.Feed.Rows.{
  SignalStatus, pending, sent, suppressed, error, Channel, WatchItem, WeeklySignal,
}
use automated_stock_trading.Feed.Sizing.{Rounds, is_actionable}
use automated_stock_trading.Feed.Signals.{
  Modeling, deliver, save_sent, SignalOutcome, Summary, generate_weekly_signals,
}

-- The arguments of `send_weekly_signals`, the moment, and which channels accept a message.
pub record Sending (F : Type 0) : Type 0 where
  pub dry_run : Bool
  pub include_flat : Bool
  pub channels : Option (List Channel)
  pub now : ℕ
  pub accepts : WeeklySignal F → Channel → Bool

abbrev pub is_pending : SignalStatus → Bool
is_pending pending = true
is_pending _ = false

module _ {F : Type 0} where
  -- `deliver_signal` once `deliver` has returned the channels.
  unfoldable pub delivered_to :
      Sending F
      → WeeklySignal F
      → List (WeeklySignal F)
      → List Channel
      → SignalOutcome F × List (WeeklySignal F)
  unfolding save_sent
  delivered_to c s rows [] = (record { signal = s; delivered = false; channels = [] }, rows)
  delivered_to c s rows (x ∷ xs) =
      let s' = record s { channels = x ∷ xs; status = sent; sent_at = some c.now } in
      (record { signal = s'; delivered = true; channels = x ∷ xs }, save_sent s' rows)

  -- `deliver_signal`: what becomes of the signal in memory, and the table.
  unfoldable pub deliver_signal :
      Sending F → WeeklySignal F → List (WeeklySignal F) → SignalOutcome F × List (WeeklySignal F)
  unfolding delivered_to
  deliver_signal c s rows = delivered_to c s rows (deliver (c.accepts s) c.channels)

  -- `deliverable and not dry_run`
  abbrev pub is_due : Sending F → WeeklySignal F → Bool
  is_due c s = is_pending s.status && (c.include_flat || is_actionable s.direction) && not c.dry_run

  unfoldable pub send_one :
      Sending F → WeeklySignal F → List (WeeklySignal F) → SignalOutcome F × List (WeeklySignal F)
  unfolding deliver_signal
  send_one c s rows =
      if is_due c s
      then deliver_signal c s rows
      else (record { signal = s; delivered = false; channels = [] }, rows)

  -- The counts for one signal, by its status before it is sent.
  unfoldable pub counted : WeeklySignal F → Bool → Summary → Summary
  counted s delivered m = record {
    generated = suc m.generated;
    sent_count = if delivered then suc m.sent_count else m.sent_count;
    suppressed_count = elim s.status [
      | suppressed ↦ suc m.suppressed_count
      | _ ↦ m.suppressed_count
    ];
    flat_count = if is_actionable s.direction then m.flat_count else suc m.flat_count;
    errors = elim s.status [ error ↦ suc m.errors | _ ↦ m.errors ];
  }

  -- The loop over the outcomes.
  unfoldable pub send_all :
      Sending F
      → List (WeeklySignal F)
      → List (WeeklySignal F)
      → Summary × List (SignalOutcome F) × List (WeeklySignal F)
  unfolding send_one counted
  send_all c [] rows = (
    record { generated = 0; sent_count = 0; suppressed_count = 0; flat_count = 0; errors = 0 },
    [],
    rows,
  )
  send_all c (s ∷ ss) rows =
      let (o, rows') = send_one c s rows in
      let (m, os, end) = send_all c ss rows' in (counted s o.delivered m, o ∷ os, end)

  -- Once the signals are generated, or were not.
  abbrev pub send_from :
      Sending F
      → Checked (List (WeeklySignal F))
      → List (WeeklySignal F)
      → Checked (Summary × List (SignalOutcome F)) × List (WeeklySignal F)
  send_from c (Checked.error e) rows = (Checked.error e, rows)
  send_from c (Checked.ok ss) rows =
      let (m, os, end) = send_all c ss rows in (Checked.ok (m, os), end)

module _ {F : Type 0} ⦃f : Floats F⦄ where
  -- `send_weekly_signals`: its summary and the outcomes, or the exception of generating the signals, and
  -- the table.
  unfoldable pub send_weekly_signals :
      Rounds F
      → Modeling F
      → Sending F
      → (as_of : ℕ) → List (WatchItem F)
      → List (WeeklySignal F)
      → Checked (Summary × List (SignalOutcome F)) × List (WeeklySignal F)
  unfolding generate_weekly_signals send_all
  send_weekly_signals r md c as_of items rows =
      let (signals, rows') = generate_weekly_signals r md as_of items rows in
      send_from c signals rows'
