-- ===== src/Feed/Delivery.antt =====
-- What a run of `send_weekly_signals` delivers.
use automated_stock_trading.Common.{
  ℕ, ◌≡◌, ◌≢◌, ◌∙◌, refl, sym, ap, true, false, Option, none, some, List, [], ◌∷◌, ◌||◌, arith,
  Bool-cases, inl, inr, All,
}
use automated_stock_trading.Floats.{Floats}
use automated_stock_trading.Feed.Dates.{anchor_monday}
use automated_stock_trading.Feed.Rows.{sent, Channel, WatchItem, WeeklySignal}
use automated_stock_trading.Modeling.Targets.{Checked, derive_target_date}
use automated_stock_trading.Feed.Stored.{
  AnyOf, Returned, Checked-either, HasRow, IsStored, send_all-IsStored,
}
use automated_stock_trading.Feed.Recorded.{generate_from-HasRow}
use automated_stock_trading.Feed.Gate.{GateResult}
use automated_stock_trading.Feed.Recap.{is_sent}
use automated_stock_trading.Feed.Sizing.{Rounds, is_actionable}
use automated_stock_trading.Feed.Signals.{
  Modeling, deliver, SignalOutcome, is_same_call, update_or_create, with_outcome, gate_of,
  base_signal, built_signal, build_signal, with_signal, generate_from, active_items,
  generate_weekly_signals,
}
use automated_stock_trading.Feed.Sending.{
  Sending, is_pending, is_due, delivered_to, deliver_signal, send_one, send_all, send_from,
  send_weekly_signals,
}

module _ {F : Type 0} ⦃f : Floats F⦄ where
  -- The watch item is that of the signal, and its model passes the gate.
  abbrev pub Vouches : Modeling F → WeeklySignal F → WatchItem F → Type 0
  Vouches md s item =
      (item.instrument ≡ s.instrument)
      × (item.trading_model.id ≡ s.trading_model)
      × ((gate_of md item).passed ≡ true)

  -- A signal that was built and not sent: while it is pending, a watch item vouches for it.
  abbrev IsBuilt : Modeling F → List (WatchItem F) → WeeklySignal F → Type 0
  IsBuilt md items s =
      (is_sent s.status ≡ false) × (is_pending s.status ≡ true → AnyOf (Vouches md s) items)

  with_outcome_lem :
      (r : Rounds F) (item : WatchItem F) (gate : GateResult F) (s : WeeklySignal F)
      (v : Option (Option F))
      → is_sent s.status ≡ false
      → is_pending s.status ≡ false
      → let s' = with_outcome r item gate s v in
        (s'.instrument ≡ s.instrument)
        × (s'.trading_model ≡ s.trading_model)
        × (is_sent s'.status ≡ false)
        × (is_pending s'.status ≡ true → gate.passed ≡ true)
  unfolding with_outcome
  with_outcome_lem r item gate s none a b = (refl, refl, a, λ h. absurd cc)
  with_outcome_lem r item gate s (some v) a b = elim (Bool-cases gate.passed) [
    | inl e ↦ rw (e, with_outcome) (refl, refl, refl, λ h. refl)
    | inr e ↦ rw (e, with_outcome) (refl, refl, refl, λ h. absurd cc)
  ]

  update_or_create_lem :
      (s : WeeklySignal F) (rows : List (WeeklySignal F))
      → let s' = (update_or_create s rows).0 in
        (s'.instrument ≡ s.instrument)
        × (s'.trading_model ≡ s.trading_model)
        × (s'.status ≡ s.status)
  unfolding update_or_create
  update_or_create_lem s [] = (refl, refl, refl)
  update_or_create_lem s (r ∷ rs) = elim (Bool-cases (is_same_call s r)) [
    | inl e ↦ rw (e, update_or_create) (refl, refl, refl)
    | inr e ↦ rw (e, update_or_create) (update_or_create_lem s rs)
  ]

  update_or_create-IsBuilt :
      (r : Rounds F) (md : Modeling F) (monday : ℕ) (item : WatchItem F) (derived : Option ℕ)
      (items : List (WatchItem F)) (rows : List (WeeklySignal F))
      → IsBuilt md (item ∷ items) (update_or_create (built_signal r md monday item derived) rows).0
  unfolding built_signal
  update_or_create-IsBuilt r md monday item derived items rows =
      let s = built_signal r md monday item derived in
      let u = update_or_create_lem s rows in
      let b =
        with_outcome_lem r item (gate_of md item)
          (base_signal md item monday derived (gate_of md item)) _ refl refl in
      (
        ap is_sent u.2 ∙ b.2,
        λ h. inl (sym (u.0 ∙ b.0), sym (u.1 ∙ b.1), b.3 (sym (ap is_pending u.2) ∙ h)),
      )

  IsBuilt-more :
      (md : Modeling F) (item : WatchItem F) (items : List (WatchItem F))
      (ss : List (WeeklySignal F))
      → All (IsBuilt md items) ss
      → All (IsBuilt md (item ∷ items)) ss
  IsBuilt-more md item items [] h = tt
  IsBuilt-more md item items (s ∷ ss) h =
      ((h.0.0, λ p. inr (h.0.1 p)), IsBuilt-more md item items ss h.1)

  with_signal-IsBuilt :
      (md : Modeling F) (item : WatchItem F) (items : List (WatchItem F)) (s : WeeklySignal F)
      (m : Checked (List (WeeklySignal F)))
      → IsBuilt md (item ∷ items) s
      → Returned (All (IsBuilt md items)) m
      → Returned (All (IsBuilt md (item ∷ items))) (with_signal s m)
  with_signal-IsBuilt md item items s (Checked.ok ss) k h = (k, IsBuilt-more md item items ss h)
  with_signal-IsBuilt md item items s (Checked.error e) k h = tt

  generate_from-IsBuilt :
      (r : Rounds F) (md : Modeling F) (monday : ℕ) (items : List (WatchItem F))
      (rows : List (WeeklySignal F))
      → Returned (All (IsBuilt md items)) (generate_from r md monday items rows).0
  unfolding generate_from build_signal
  generate_from-IsBuilt r md monday [] rows = tt
  generate_from-IsBuilt r md monday (item ∷ items) rows =
      elim (Checked-either (derive_target_date item.trading_model.target_spec monday)) [
        | inr (e, q) ↦ rw (q, generate_from, build_signal) tt
        | inl (derived, q) ↦
            let (s', rows') = update_or_create (built_signal r md monday item derived) rows in
            rw (q, generate_from, build_signal)
              (with_signal-IsBuilt md item items s' (generate_from r md monday items rows').0
                (update_or_create-IsBuilt r md monday item derived items rows)
                (generate_from-IsBuilt r md monday items rows'))
      ]

  -- Delivered: on a run that is not dry, of a call that is not flat or while flat calls are included,
  -- stamped as sent now to at least one channel, and vouched for. Otherwise it is not sent.
  abbrev pub IsHandled : Modeling F → Sending F → List (WatchItem F) → SignalOutcome F → Type 0
  IsHandled md c items o =
      (o.delivered ≡ false → is_sent o.signal.status ≡ false)
      × (o.delivered ≡ true
          → (c.dry_run ≡ false)
            × (c.include_flat || is_actionable o.signal.direction ≡ true)
            × (o.signal.status ≡ sent)
            × (o.signal.sent_at ≡ some c.now)
            × (o.channels ≢ [])
            × (o.signal.channels ≡ o.channels)
            × AnyOf (Vouches md o.signal) items)

  delivered_to-IsHandled :
      (md : Modeling F) (c : Sending F) (items : List (WatchItem F)) (s : WeeklySignal F)
      (rows : List (WeeklySignal F)) (xs : List Channel)
      → IsBuilt md items s
      → is_due c s ≡ true
      → IsHandled md c items (delivered_to c s rows xs).0
  unfolding delivered_to
  delivered_to-IsHandled md c items s rows [] h e = (λ d. h.0, λ d. absurd cc)
  delivered_to-IsHandled md c items s rows (x ∷ xs) h e = (
    λ d. absurd cc,
    λ d. (
      ground (arith, e),
      ground (arith, e),
      refl,
      refl,
      λ k. absurd cc,
      refl,
      h.1 (ground (arith, e)),
    ),
  )

  send_one-IsHandled :
      (md : Modeling F) (c : Sending F) (items : List (WatchItem F)) (s : WeeklySignal F)
      (rows : List (WeeklySignal F))
      → IsBuilt md items s
      → IsHandled md c items (send_one c s rows).0
  unfolding send_one deliver_signal
  send_one-IsHandled md c items s rows h = elim (Bool-cases (is_due c s)) [
    | inl e ↦
        rw (e, send_one)
          (delivered_to-IsHandled md c items s rows (deliver (c.accepts s) c.channels) h e)
    | inr e ↦ rw (e, send_one) (λ d. h.0, λ d. absurd cc)
  ]

  send_all-IsHandled :
      (md : Modeling F) (c : Sending F) (items : List (WatchItem F))
      (ss rows : List (WeeklySignal F))
      → All (IsBuilt md items) ss
      → All (IsHandled md c items) (send_all c ss rows).1
  unfolding send_all
  send_all-IsHandled md c items [] rows h = tt
  send_all-IsHandled md c items (s ∷ ss) rows h = (
    send_one-IsHandled md c items s rows h.0,
    send_all-IsHandled md c items ss (send_one c s rows).1 h.1,
  )

  -- What became of a signal, with the table at the end: handled, and stored if it was delivered.
  abbrev pub IsSettled :
      Modeling F
      → Sending F
      → List (WatchItem F)
      → (end : List (WeeklySignal F)) → SignalOutcome F
      → Type 0
  IsSettled md c items end o =
      IsHandled md c items o × (o.delivered ≡ true → IsStored c o.signal end)

  All-IsSettled :
      (md : Modeling F) (c : Sending F) (items : List (WatchItem F)) (end : List (WeeklySignal F))
      (os : List (SignalOutcome F))
      → All (IsHandled md c items) os
      → All (λ o. o.delivered ≡ true → IsStored c o.signal end) os
      → All (IsSettled md c items end) os
  All-IsSettled md c items end [] h k = tt
  All-IsSettled md c items end (o ∷ os) (h, hs) (k, ks) =
      ((h, k), All-IsSettled md c items end os hs ks)

  -- Whatever the forecasts, the table and the channels, where no target specification of an active
  -- watch item makes generating the signals raise, every signal of a run of `send_weekly_signals` is
  -- handled rightly: if it was delivered, the run is not dry, the call is not flat unless flat calls
  -- are included, at least one channel took it and is recorded on it with the moment and the status
  -- sent, its row is in the table at the end with the status sent, the moment and some channel, and
  -- its instrument and model are those of an active watch item whose model passes the gate; if not,
  -- its status is not sent, even where an earlier run had sent it.
  pub send_weekly_signals-IsSettled :
      (r : Rounds F) (md : Modeling F) (c : Sending F) (as_of : ℕ) (items : List (WatchItem F))
      (rows : List (WeeklySignal F))
      → let (result, end) = send_weekly_signals r md c as_of items rows in
        Returned (λ (m, os). All (IsSettled md c (active_items items) end) os) result
  unfolding send_weekly_signals generate_weekly_signals
  send_weekly_signals-IsSettled r md c as_of items rows =
      let (signals, rows') = generate_from r md (anchor_monday as_of) (active_items items) rows in
      settled signals rows'
        (generate_from-IsBuilt r md (anchor_monday as_of) (active_items items) rows)
        (generate_from-HasRow r md (anchor_monday as_of) (active_items items) rows)
    where
      settled :
          (signals : Checked (List (WeeklySignal F))) (rows' : List (WeeklySignal F))
          → Returned (All (IsBuilt md (active_items items))) signals
          → Returned (All (λ s. HasRow s rows')) signals
          → let (result, end) = send_from c signals rows' in
            Returned (λ (m, os). All (IsSettled md c (active_items items) end) os) result
      settled (Checked.error e) rows' h k = tt
      settled (Checked.ok ss) rows' h k =
          All-IsSettled md c (active_items items) (send_all c ss rows').2 (send_all c ss rows').1
            (send_all-IsHandled md c (active_items items) ss rows' h)
            (send_all-IsStored c ss rows' k)
