-- ===== src/Feed/Recorded.antt =====
-- The rows that `generate_weekly_signals` of signalfeed/services.py leaves for its signals.
use automated_stock_trading.Common.{ℕ, List, [], ◌∷◌, inl, inr, All}
use automated_stock_trading.Floats.{Floats}
use automated_stock_trading.Modeling.Targets.{Checked}
use automated_stock_trading.Feed.Rows.{WatchItem, WeeklySignal}
use automated_stock_trading.Feed.Sizing.{Rounds}
use automated_stock_trading.Feed.Signals.{
  Modeling, update_or_create, build_signal, with_signal, generate_from,
}
use automated_stock_trading.Feed.Stored.{
  Returned, Checked-either, HasRow, update_or_create-HasRow, update_or_create_keeps,
}

module _ {F : Type 0} ⦃f : Floats F⦄ where
  generate_from_keeps :
      (r : Rounds F) (md : Modeling F) (monday : ℕ) (items : List (WatchItem F))
      (t : WeeklySignal F) (rows : List (WeeklySignal F))
      → HasRow t rows
      → HasRow t (generate_from r md monday items rows).1
  unfolding generate_from
  generate_from_keeps r md monday [] t rows h = h
  generate_from_keeps r md monday (item ∷ items) t rows h =
      elim (Checked-either (build_signal r md monday item)) [
        | inr (e, q) ↦ rw (q, generate_from) h
        | inl (s, q) ↦
            rw (q, generate_from)
              (generate_from_keeps r md monday items t (update_or_create s rows).1
                (update_or_create_keeps t s rows h))
      ]

  -- The signals that are generated have rows.
  pub generate_from-HasRow :
      (r : Rounds F) (md : Modeling F) (monday : ℕ) (items : List (WatchItem F))
      (rows : List (WeeklySignal F))
      → let (signals, end) = generate_from r md monday items rows in
        Returned (All (λ s. HasRow s end)) signals
  unfolding generate_from
  generate_from-HasRow r md monday [] rows = tt
  generate_from-HasRow r md monday (item ∷ items) rows =
      elim (Checked-either (build_signal r md monday item)) [
        | inr (e, q) ↦ rw (q, generate_from) tt
        | inl (s, q) ↦
            let (s', rows') = update_or_create s rows in
            rw (q, generate_from)
              (joined s' (generate_from r md monday items rows').1
                (generate_from r md monday items rows').0
                (generate_from_keeps r md monday items s' rows' (update_or_create-HasRow s rows))
                (generate_from-HasRow r md monday items rows'))
      ]
    where
      joined :
          (s : WeeklySignal F) (end : List (WeeklySignal F)) (m : Checked (List (WeeklySignal F)))
          → HasRow s end
          → Returned (All (λ t. HasRow t end)) m
          → Returned (All (λ t. HasRow t end)) (with_signal s m)
      joined s end (Checked.ok ss) k h = (k, h)
      joined s end (Checked.error e) k h = tt
