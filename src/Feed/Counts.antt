-- ===== src/Feed/Counts.antt =====
-- What the summary of `send_weekly_signals` counts, and a dry run.
use automated_stock_trading.Common.{
  select, if◌then◌else◌, ℕ, suc, ◌+◌, ◌≤◌, ◌≡◌, refl, ap, ◌∙◌, Bool, true, false, List, [], ◌∷◌,
  arith, Bool-cases, inl, inr, length,
}
use automated_stock_trading.Floats.{Floats}
use automated_stock_trading.Modeling.Targets.{Checked, SpecError}
use automated_stock_trading.Feed.Rows.{WatchItem, WeeklySignal}
use automated_stock_trading.Feed.Sizing.{Rounds}
use automated_stock_trading.Feed.Signals.{Modeling, SignalOutcome, Summary, generate_weekly_signals}
use automated_stock_trading.Feed.Sending.{
  Sending, is_pending, is_due, send_one, send_all, send_from, counted, send_weekly_signals,
}

checked_inj : {A : Type 0} {a b : A} → Checked.ok a ≡ Checked.ok b → a ≡ b
checked_inj {a} e = ap (λ m. value a m) e
  where
    value : {A : Type 0} → A → Checked A → A
    value a (Checked.ok b) = b
    value a (Checked.error e) = a

-- The same exception, of another type of result.
error_again :
    {A B : Type 0} {d e : SpecError}
    → Path (Checked A) (Checked.error d) (Checked.error e)
    → Path (Checked B) (Checked.error d) (Checked.error e)
error_again {d} h = ap (λ m. again d m) h
  where
    again : {A B : Type 0} → SpecError → Checked A → Checked B
    again d (Checked.error e) = Checked.error e
    again d (Checked.ok a) = Checked.error d

module _ {F : Type 0} ⦃f : Floats F⦄ where
  send_one-dry :
      (c : Sending F) (s : WeeklySignal F) (rows : List (WeeklySignal F))
      → c.dry_run ≡ true
      → send_one c s rows ≡ (record { signal = s; delivered = false; channels = [] }, rows)
  unfolding send_one
  send_one-dry c s rows h = ground arith

  send_one_delivered :
      (c : Sending F) (s : WeeklySignal F) (rows : List (WeeklySignal F))
      → (send_one c s rows).0.delivered ≡ true
      → is_pending s.status ≡ true
  unfolding send_one
  send_one_delivered c s rows h = elim (Bool-cases (is_due c s)) [
    | inl e ↦ ground (arith, e)
    | inr e ↦ absurd (ground (arith, e))
  ]

  counted_lem :
      (s : WeeklySignal F) (delivered : Bool) (m : Summary)
      → (delivered ≡ true → is_pending s.status ≡ true)
      → m.sent_count + m.suppressed_count + m.errors ≤ m.generated
      → let m' = counted s delivered m in
        m'.sent_count + m'.suppressed_count + m'.errors ≤ m'.generated
  unfolding counted
  counted_lem s delivered m h k = ground arith

  send_all_counts :
      (c : Sending F) (ss rows : List (WeeklySignal F))
      → let m = (send_all c ss rows).0 in
        (m.generated ≡ length ss) × (m.sent_count + m.suppressed_count + m.errors ≤ m.generated)
  unfolding send_all counted
  send_all_counts c [] rows = (refl, omega arith)
  send_all_counts c (s ∷ ss) rows =
      let (o, rows') = send_one c s rows in
      let rest = send_all_counts c ss rows' in
      (
        ap suc rest.0,
        counted_lem s o.delivered (send_all c ss rows').0 (send_one_delivered c s rows) rest.1,
      )

  send_all_sent :
      (c : Sending F) (ss rows : List (WeeklySignal F))
      → let (m, os, end) = send_all c ss rows in
        m.sent_count ≡ length (select (λ o. o.delivered) os)
  unfolding send_all counted
  send_all_sent c [] rows = refl
  send_all_sent c (s ∷ ss) rows =
      let (o, rows') = send_one c s rows in
      one (select (λ x. x.delivered) (send_all c ss rows').1) o o.delivered
        (send_all_sent c ss rows')
    where
      one :
          {n : ℕ} (xs : List (SignalOutcome F)) (x : SignalOutcome F) (b : Bool)
          → n ≡ length xs
          → (if b then suc n else n) ≡ length (if b then x ∷ xs else xs)
      one xs x true h = ap suc h
      one xs x false h = h

  send_all-dry :
      (c : Sending F) (ss rows : List (WeeklySignal F))
      → c.dry_run ≡ true
      → ((send_all c ss rows).0.sent_count ≡ 0) × ((send_all c ss rows).2 ≡ rows)
  unfolding send_all counted
  send_all-dry c [] rows h = (refl, refl)
  send_all-dry c (s ∷ ss) rows h = rw (send_one-dry c s rows h) (send_all-dry c ss rows h)

  -- Where generating the signals does not raise, the summary of a run counts every signal that was
  -- generated, as sent exactly those whose outcome is delivered, and those sent, suppressed and in
  -- error are no more than the generated; a dry run sends nothing and leaves the table as generating the signals has left it; and where generating them raises, so
  -- does the run, and it leaves that table too.
  pub send_weekly_signals_counts :
      (r : Rounds F) (md : Modeling F) (c : Sending F) (as_of : ℕ) (items : List (WatchItem F))
      (rows : List (WeeklySignal F))
      → let (signals, rows') = generate_weekly_signals r md as_of items rows in
        let (result, end) = send_weekly_signals r md c as_of items rows in
        ((ss : List (WeeklySignal F))
          → signals ≡ Checked.ok ss
          → (m : Summary) × (os : List (SignalOutcome F)) × (result ≡ Checked.ok (m, os))
            × (m.generated ≡ length ss)
            × (m.sent_count ≡ length (select (λ o. o.delivered) os))
            × (m.sent_count + m.suppressed_count + m.errors ≤ m.generated)
            × (c.dry_run ≡ true → (m.sent_count ≡ 0) × (end ≡ rows')))
        × ((e : SpecError) → signals ≡ Checked.error e → (result ≡ Checked.error e) × (end ≡ rows'))
  unfolding send_weekly_signals
  send_weekly_signals_counts r md c as_of items rows =
      let (signals, rows') = generate_weekly_signals r md as_of items rows in counts signals rows'
    where
      counts :
          (signals : Checked (List (WeeklySignal F))) (rows' : List (WeeklySignal F))
          → let (result, end) = send_from c signals rows' in
            ((ss : List (WeeklySignal F))
              → signals ≡ Checked.ok ss
              → (m : Summary) × (os : List (SignalOutcome F)) × (result ≡ Checked.ok (m, os))
                × (m.generated ≡ length ss)
                × (m.sent_count ≡ length (select (λ o. o.delivered) os))
                × (m.sent_count + m.suppressed_count + m.errors ≤ m.generated)
                × (c.dry_run ≡ true → (m.sent_count ≡ 0) × (end ≡ rows')))
            × ((e : SpecError)
                → signals ≡ Checked.error e
                → (result ≡ Checked.error e) × (end ≡ rows'))
      counts (Checked.error d) rows' = ((λ ss h. absurd cc), λ e h. (error_again h, refl))
      counts (Checked.ok ts) rows' = (
        (λ ss h.
            let (n, le) = send_all_counts c ts rows' in
            (
              (send_all c ts rows').0,
              (send_all c ts rows').1,
              refl,
              n ∙ ap length (checked_inj h),
              send_all_sent c ts rows',
              le,
              λ d. send_all-dry c ts rows' d,
            )),
        λ e h. absurd cc,
      )
