-- ===== src/Backtest/Dates.antt =====
-- The points and the curves of the simulation in backtesting/engine.py: sorted by date, one for each date.
use automated_stock_trading.Common.{
  ℕ, ◌<◌, ◌≡◌, max, refl, ap, sym, subst, Bool, true, false, some, List, [], ◌∷◌, ◌==◌, ==_iff, ltb,
  inl, inr, Bool-cases, exists, length, All, sort_by, IsOrdered, sort_by-IsOrdered, exists-sort_by,
  ◌∙◌, if◌then◌else◌, arith, map, ◌++◌,
}
use automated_stock_trading.Floats.{Floats, ◌⊕◌, ◌⊘◌, float}
use automated_stock_trading.Backtest.Positions.{Position}
use automated_stock_trading.Backtest.Trades.{Point, Trade}
use automated_stock_trading.Backtest.Replayed.{IsRising, trade_log-Tells}
use automated_stock_trading.Backtest.Curves.{curve_from, curve, with_trades, simulate_instrument}
use automated_stock_trading.Backtest.Rows.{Backtest}
use automated_stock_trading.Backtest.Engine.{later, deduped, Simulated, simulate_all}

abbrev is_seen : List ℕ → ℕ → Bool
is_seen seen d = exists (λ e. e == d) seen

module _ {F : Type 0} where
  deduped_known :
      (seen : List ℕ) (p : Point F) (ps : List (Point F))
      → is_seen seen p.date ≡ true
      → deduped seen (p ∷ ps) ≡ deduped seen ps
  unfolding deduped
  deduped_known seen p ps e = rw e refl

  deduped_new :
      (seen : List ℕ) (p : Point F) (ps : List (Point F))
      → is_seen seen p.date ≡ false
      → deduped seen (p ∷ ps) ≡ p ∷ deduped (p.date ∷ seen) ps
  unfolding deduped
  deduped_new seen p ps e = rw e refl

  deduped_nil : (seen : List ℕ) → deduped {F = F} seen [] ≡ []
  unfolding deduped
  deduped_nil seen = refl

  -- What is left of ordered points comes after a day that was seen and is before none of them.
  deduped-after :
      (seen : List ℕ) (day : ℕ) (ps : List (Point F))
      → is_seen seen day ≡ true
      → All (λ q. ltb q.date day ≡ false) ps
      → All (λ q. day < q.date) (deduped seen ps)
  deduped-after seen day [] k h = rw (deduped_nil seen) tt
  deduped-after seen day (p ∷ ps) k (h, hs) = elim (Bool-cases (is_seen seen p.date)) [
    | inl e ↦ rw (deduped_known seen p ps e) (deduped-after seen day ps k hs)
    | inr e ↦
        subst (All (λ q. day < q.date)) (sym (deduped_new seen p ps e))
          (apart p.date h e, deduped-after (p.date ∷ seen) day ps (still p.date) hs)
  ]
    where
      apart : (d : ℕ) → ltb d day ≡ false → is_seen seen d ≡ false → day < d
      apart d h e = elim (Bool-cases (day == d)) [
        | inl q ↦ absurd (cc (e, subst (λ x. is_seen seen x ≡ true) ((==_iff day d).0 q) k))
        | inr q ↦ ground arith
      ]

      still : (d : ℕ) → is_seen (d ∷ seen) day ≡ true
      still d = ground arith

  deduped-IsRising :
      (seen : List ℕ) (ps : List (Point F)) → IsOrdered later ps → IsRising (deduped seen ps)
  deduped-IsRising seen [] h = rw (deduped_nil seen) tt
  deduped-IsRising seen (p ∷ ps) (b, h) = elim (Bool-cases (is_seen seen p.date)) [
    | inl e ↦ rw (deduped_known seen p ps e) (deduped-IsRising seen ps h)
    | inr e ↦ subst IsRising (sym (deduped_new seen p ps e)) (
      deduped-after (p.date ∷ seen) p.date ps (own p.date) b,
      deduped-IsRising (p.date ∷ seen) ps h,
    )
  ]
    where
      own : (d : ℕ) → is_seen (d ∷ seen) d ≡ true
      own d = ground arith

  All-Unit : (ps : List (Point F)) → All (λ p. Unit {0}) ps
  All-Unit [] = tt
  All-Unit (p ∷ ps) = (tt, All-Unit ps)

  -- The points of an instrument, as the trade log is given them.
  abbrev pub replayed : List (Point F) → List (Point F)
  replayed points = deduped [] (sort_by later points)

  pub replayed-IsRising : (points : List (Point F)) → IsRising (replayed points)
  replayed-IsRising points = deduped-IsRising [] (sort_by later points) (
      sort_by-IsOrdered later (λ p. Unit) (λ x y _ _ h. ground arith)
        (λ x y z _ _ _ h k. ground arith) points (All-Unit points))

  -- No day is lost.
  deduped_days :
      (seen : List ℕ) (day : ℕ) (ps : List (Point F))
      → is_seen seen day ≡ false
      → exists (λ p. p.date == day) (deduped seen ps) ≡ exists (λ p. p.date == day) ps
  deduped_days seen day [] k = rw (deduped_nil seen) refl
  deduped_days seen day (p ∷ ps) k = elim (Bool-cases (is_seen seen p.date)) [
    | inl e ↦
        rw (deduped_known seen p ps e)
          (deduped_days seen day ps k ∙ sym (skipped p.date (other p.date e)))
    | inr e ↦ rw (deduped_new seen p ps e) (elim (Bool-cases (p.date == day)) [
      | inl q ↦ both _ _ p.date q
      | inr q ↦ rw q (deduped_days (p.date ∷ seen) day ps (unseen p.date q))
    ])
  ]
    where
      other : (d : ℕ) → is_seen seen d ≡ true → (d == day) ≡ false
      other d e = elim (Bool-cases (d == day)) [
        | inl q ↦ absurd (cc (k, subst (λ x. is_seen seen x ≡ true) ((==_iff d day).0 q) e))
        | inr q ↦ q
      ]

      skipped :
          (d : ℕ)
          → (d == day) ≡ false
          → (if d == day then true else exists (λ p. p.date == day) ps)
            ≡ exists (λ p. p.date == day) ps
      skipped d q = rw q refl

      unseen : (d : ℕ) → (d == day) ≡ false → is_seen (d ∷ seen) day ≡ false
      unseen d q = ground (arith, q, k)

      both :
          (x y : Bool) (d : ℕ)
          → (d == day) ≡ true
          → (if d == day then true else x) ≡ (if d == day then true else y)
      both x y d q = rw q refl

  replayed_days :
      (day : ℕ) (points : List (Point F))
      → exists (λ p. p.date == day) (replayed points) ≡ exists (λ p. p.date == day) points
  replayed_days day points =
      deduped_days [] day (sort_by later points) refl
      ∙ exists-sort_by later (λ p. p.date == day) points

  -- The dates of a curve go up.
  abbrev pub Rises : List (ℕ × F) → Type 0
  Rises [] = Unit
  Rises (x ∷ xs) = All (λ y. x.0 < y.0) xs × Rises xs

  -- A curve has rising dates, which are those of the points.
  abbrev pub IsCurveOf : List (Point F) → List (ℕ × F) → Type 0
  IsCurveOf points c =
      Rises c × ((day : ℕ) → exists (λ x. x.0 == day) c ≡ exists (λ p. p.date == day) points)

  -- One such curve for each instrument, in order.
  abbrev pub AreCurvesOf : List (ℕ × List (Point F)) → List (List (ℕ × F)) → Type 0
  AreCurvesOf [] [] = Unit
  AreCurvesOf ((symbol, points) ∷ series) (c ∷ curves) =
      IsCurveOf points c × AreCurvesOf series curves
  AreCurvesOf _ _ = ⊥

module _ {F : Type 0} ⦃f : Floats F⦄ where
  curve_from-after :
      (cost : F) (day : ℕ) (rest : List (Point F)) (p : Point F) (equity : F) (held : Position)
      → All (λ q. day < q.date) (p ∷ rest)
      → All (λ x. day < x.0) (curve_from cost equity held p rest)
  unfolding curve_from
  curve_from-after cost day [] p equity held (h, hs) = (h, tt)
  curve_from-after cost day (q ∷ rest) p equity held (h, hs) =
      (h, curve_from-after cost day rest q _ p.position hs)

  curve_from-Rises :
      (cost : F) (rest : List (Point F)) (p : Point F) (equity : F) (held : Position)
      → IsRising (p ∷ rest)
      → Rises (curve_from cost equity held p rest)
  unfolding curve_from
  curve_from-Rises cost [] p equity held h = (tt, tt)
  curve_from-Rises cost (q ∷ rest) p equity held (h, hs) = (
    curve_from-after cost p.date rest q _ p.position h,
    curve_from-Rises cost rest q _ p.position hs,
  )

  curve_from_days :
      (cost : F) (day : ℕ) (rest : List (Point F)) (p : Point F) (equity : F) (held : Position)
      → exists (λ x. x.0 == day) (curve_from cost equity held p rest)
        ≡ exists (λ q. q.date == day) (p ∷ rest)
  unfolding curve_from
  curve_from_days cost day [] p equity held = refl
  curve_from_days cost day (q ∷ rest) p equity held =
      ap (λ b. if p.date == day then true else b) (curve_from_days cost day rest q _ p.position)

  curve-IsCurveOf :
      (cost cash : F) (ps : List (Point F)) → IsRising ps → IsCurveOf ps (curve cost cash ps)
  unfolding curve
  curve-IsCurveOf cost cash [] h = (tt, λ day. refl)
  curve-IsCurveOf cost cash (p ∷ ps) h = (
    curve_from-Rises cost ps p cash Position.flat h,
    λ day. curve_from_days cost day ps p cash Position.flat,
  )

  -- Whatever points an instrument has, its simulation ends, with a curve of them.
  simulate_instrument-ends :
      (cash commission slippage : F) (points : List (Point F))
      → (r : List (ℕ × F) × List (Trade F)) × (simulate_instrument cash commission slippage
            (replayed points)
          ≡ some r)
        × IsCurveOf points r.0
  unfolding simulate_instrument
  simulate_instrument-ends cash commission slippage points =
      let ps = replayed points in
      let cost_rate = (commission ⊕ slippage) ⊘ float 10000 in
      let alloc = cash ⊘ float (max (length ps) 1) in
      let (ts, made, _, _) = trade_log-Tells alloc cost_rate ps (replayed-IsRising points) in
      let c = curve cost_rate cash ps in
      let (rises, days) = curve-IsCurveOf cost_rate cash ps (replayed-IsRising points) in
      ((c, ts), ap (with_trades c) made, (rises, λ day. days day ∙ replayed_days day points))

  -- Whatever forecasts a back-test has collected, the simulation of its instruments ends, with one
  -- equity curve for each instrument, in order, whose dates go up and are exactly the dates of the
  -- points of the instrument, however often and in whatever order they were collected.
  pub simulate_all-AreCurvesOf :
      (bt : Backtest F) (run : ℕ) (per_alloc : F) (series : List (ℕ × List (Point F)))
      → (sim : Simulated F) × (simulate_all bt run per_alloc series ≡ some sim)
        × AreCurvesOf series sim.curves
  unfolding simulate_all
  simulate_all-AreCurvesOf bt run per_alloc [] = (_, refl, tt)
  simulate_all-AreCurvesOf bt run per_alloc ((symbol, points) ∷ series) =
      let (one, first, is_curve) =
        simulate_instrument-ends per_alloc bt.commission_bps bt.slippage_bps points in
      let (rest, more, are_curves) = simulate_all-AreCurvesOf bt run per_alloc series in
      let sim : Simulated F = record {
        curves = one.0 ∷ rest.curves;
        trade_rows =
            map (λ t. record { run = run; instrument = symbol; trade = t }) one.1
            ++ rest.trade_rows;
      } in
      (sim, rw (first, more) refl, (is_curve, are_curves))
