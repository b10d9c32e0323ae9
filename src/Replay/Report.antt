-- ===== src/Replay/Report.antt =====
-- What a replay reports: the moments of the equity curve, and the trade log.
use automated_stock_trading.Common.{
  ℕ, suc, ◌≤◌, ◌≡◌, ◌&&◌, refl, false, ◌||◌, Option, none, some, List, [], ◌∷◌, ◌++◌, arith, ltb,
  ◌==◌, exists, length, Bool-cases, Option-cases, inl, inr, ap, sym, ◌∙◌, not, subst,
}
use automated_stock_trading.Ledger.{Action, Signal}
use automated_stock_trading.Floats.{Floats, ◌⊕◌, ◌⊗◌, ◌⊘◌, lt_float, le_float, float}
use automated_stock_trading.Replay.{
  Outcome, ok, raised, Bar, Costs, Book, BacktestResult, out_of_order, enter, leave, trade,
  action_at, mark, replay_bar, replay, opening, result_of, paired, chain, run_checked, run_backtest,
  price_at, bad_cost, bad_bar, bps,
}
use automated_stock_trading.Replay.Log.{Gives, moment, IsLog, IsSound, trade-IsSound}

append_nil {ℓ} : {A : Type ℓ} (l : List A) → l ++ [] ≡ l
append_nil [] = refl
append_nil (x ∷ l) = ap (λ k. x ∷ k) (append_nil l)

module _ {F : Type 0} where
  -- The bars come one after the other, from `b` on.
  abbrev IsFrom : ℕ → List (Bar F) → Type 0
  IsFrom b [] = Unit
  IsFrom b (bar ∷ rest) = (b ≤ bar.timestamp) × IsFrom (suc bar.timestamp) rest

  abbrev pub times : List (ℕ × F) → List ℕ
  times [] = []
  times ((t, v) ∷ rest) = t ∷ times rest

  abbrev pub bar_times : List (Bar F) → List ℕ
  bar_times [] = []
  bar_times (b ∷ rest) = b.timestamp ∷ bar_times rest

  times-snoc :
      (c : List (ℕ × F)) (t : ℕ) (v : F) (ts : List ℕ)
      → times (c ++ ((t, v) ∷ [])) ++ ts ≡ times c ++ (t ∷ ts)
  times-snoc [] t v ts = refl
  times-snoc ((u, w) ∷ c) t v ts = ap (λ l. u ∷ l) (times-snoc c t v ts)

  -- What the bars that are left turn a book into.
  abbrev Finishes : Book F → List (Bar F) → Book F → Type 0
  Finishes s bars s' =
      ((e : ℕ) × IsSound e s') × (times s'.equity_curve ≡ times s.equity_curve ++ bar_times bars)

  -- The log is in order, and the curve has the moments of the bars.
  abbrev pub IsReport : List (Bar F) → BacktestResult F → Type 0
  IsReport bars r = ((hi : ℕ) × IsLog 0 r.trades hi) × (times r.equity_curve ≡ bar_times bars)

module _ {F : Type 0} ⦃f : Floats F⦄ where
  out_of_order-IsFrom :
      (b : ℕ) (bar : Bar F) (bars : List (Bar F))
      → b ≤ bar.timestamp
      → out_of_order (bar ∷ bars) ≡ false
      → IsFrom b (bar ∷ bars)
  unfolding out_of_order
  out_of_order-IsFrom b bar [] k e = (k, tt)
  out_of_order-IsFrom b bar (a ∷ bars) k e =
      (k, out_of_order-IsFrom (suc bar.timestamp) a bars (ground arith) (ground arith))

  enter-equity_curve :
      (c : Costs F) (t : ℕ) (price : F) (s : Book F)
      → Gives (λ s'. s'.equity_curve ≡ s.equity_curve) (enter c t price s)
  unfolding enter
  enter-equity_curve c t price s =
      elim (Option-cases (
        f.int_floor_div s.cash
          (price ⊗ (float 1 ⊕ c.slippage_bps ⊘ bps) ⊗ (float 1 ⊕ c.commission_bps ⊘ bps)))) [
            | inl e ↦ rw (e, Gives, enter) tt
            | inr (n, e) ↦
                rw (e, Gives, enter)
                  (elim (Bool-cases (n == 0)) [ inl z ↦ rw z refl | inr z ↦ rw z refl ])
          ]

  trade-equity_curve :
      (c : Costs F) (a : Action) (t : ℕ) (price : F) (s : Book F)
      → Gives (λ s'. s'.equity_curve ≡ s.equity_curve) (trade c a t price s)
  unfolding trade enter leave
  trade-equity_curve c Action.buy t price s =
      elim (Bool-cases (s.shares == 0 && lt_float (float 0) s.cash)) [
        | inl e ↦ rw (e, Gives) (enter-equity_curve c t price s)
        | inr e ↦ rw (e, Gives) refl
      ]
  trade-equity_curve c Action.sell t price s = elim (Bool-cases (ltb 0 s.shares)) [
    | inl e ↦ rw (e, Gives) refl
    | inr e ↦ rw (e, Gives) refl
  ]
  trade-equity_curve c Action.hold t price s = refl

  replay-Finishes :
      (c : Costs F) (before : Option Signal) (b : ℕ) (bars : List (Bar F)) (signals : List Signal)
      → (s : Book F) → length signals ≡ length bars
      → IsFrom b bars
      → IsSound b s
      → Gives (Finishes s bars) (replay c before (paired bars signals) s)
  unfolding replay replay_bar paired mark
  replay-Finishes c before b [] [] s n o h = ((b, h), sym (append_nil (times s.equity_curve)))
  replay-Finishes c before b [] (g ∷ gs) s n o h = absurd (omega arith)
  replay-Finishes c before b (bar ∷ bars) [] s n o h = absurd (omega arith)
  replay-Finishes c before b (bar ∷ bars) (g ∷ gs) s n o h =
      go (trade c (action_at c.next_open before g) bar.timestamp (price_at c.next_open bar) s)
        (trade-IsSound c (action_at c.next_open before g) b bar.timestamp (price_at c.next_open bar)
          s o.0 h)
        (trade-equity_curve c (action_at c.next_open before g) bar.timestamp
          (price_at c.next_open bar) s)
        (λ s' k. replay-Finishes c (some g) (suc bar.timestamp) bars gs s' (omega arith) o.1 k)
    where
      widen :
          (s' : Book F) (r : Outcome (Book F))
          → s'.equity_curve ≡ s.equity_curve
          → Gives (Finishes (mark bar s') bars) r
          → Gives (Finishes s (bar ∷ bars)) r
      widen s' (raised e) m k = tt
      widen s' (ok z) m (k, q) = (
        k,
        q
            ∙ times-snoc s'.equity_curve bar.timestamp (s'.cash ⊕ float s'.shares ⊗ bar.close)
                (bar_times bars)
            ∙ ap (λ l. times l ++ (bar.timestamp ∷ bar_times bars)) m,
      )

      marked :
          (s' : Book F) → IsSound (suc bar.timestamp) s' → IsSound (suc bar.timestamp) (mark bar s')
      marked s' (inl h) = inl h
      marked s' (inr h) = inr h

      go :
          (r : Outcome (Book F))
          → Gives (IsSound (suc bar.timestamp)) r
          → Gives (λ s'. s'.equity_curve ≡ s.equity_curve) r
          → ((s' : Book F)
              → IsSound (suc bar.timestamp) s'
              → Gives (Finishes s' bars) (replay c (some g) (paired bars gs) s'))
          → Gives (Finishes s (bar ∷ bars)) (
              chain
                (chain r (λ s'. ok (mark bar s')))
                (λ s'. replay c (some g) (paired bars gs) s'))
      go (raised e) k m rest = tt
      go (ok s') k m rest =
          widen s' (replay c (some g) (paired bars gs) (mark bar s')) m
            (rest (mark bar s') (marked s' k))

  opening-IsSound : (cash : F) → IsSound 0 (opening cash)
  opening-IsSound cash = inl (refl, omega arith)

  finish-IsReport :
      (bars : List (Bar F)) (cash : F) (r : Outcome (Book F))
      → Gives (Finishes (opening cash) bars) r
      → Gives (IsReport bars) (chain r (λ s. ok (result_of cash s)))
  finish-IsReport bars cash (raised e) h = tt
  finish-IsReport bars cash (ok s) (((b, inl (z, h)), q)) = ((b, h), q)
  finish-IsReport bars cash (ok s) (((b, inr (p, a, d, m, h)), q)) = ((moment s.entry_time, h), q)

  run_checked-IsReport :
      (generate : List (Bar F) → Option (List Signal))
      → (bars : List (Bar F)) (cash : F) (c : Costs F) → out_of_order bars ≡ false
      → Gives (IsReport bars) (run_checked generate bars cash c)
  unfolding run_checked
  run_checked-IsReport generate [] cash c o = ((0, omega arith), refl)
  run_checked-IsReport generate (b ∷ bs) cash c o = elim (Option-cases (generate (b ∷ bs))) [
    | inl e ↦ rw (e, Gives) tt
    | inr (signals, e) ↦
        rw (e, Gives)
          (elim (Bool-cases (length signals == length (b ∷ bs))) [
            | inl z ↦
                rw (z, Gives)
                  (finish-IsReport (b ∷ bs) cash _ (
                    replay-Finishes c none 0 (b ∷ bs) signals (opening cash) (ground arith)
                      (out_of_order-IsFrom 0 b bs (omega arith) o) (opening-IsSound cash)))
            | inr z ↦ rw (z, Gives) tt
          ])
  ]

  run_backtest-Gives :
      (generate : List (Bar F) → Option (List Signal))
      → (bars : List (Bar F)) (cash : F) (c : Costs F)
      → Gives (IsReport bars) (run_backtest generate bars cash c)
  unfolding run_backtest
  run_backtest-Gives generate bars cash c =
      elim (Bool-cases (not (f.is_finite cash) || le_float cash (float 0))) [
        | inl e ↦ rw (e, Gives) tt
        | inr e ↦
            rw (e, Gives)
              (elim (Bool-cases (bad_cost c.commission_bps || bad_cost c.slippage_bps)) [
                | inl g ↦ rw (g, Gives) tt
                | inr g ↦
                    rw (g, Gives)
                      (elim (Bool-cases (exists bad_bar bars)) [
                        | inl h ↦ rw (h, Gives) tt
                        | inr h ↦
                            rw (h, Gives)
                              (elim (Bool-cases (out_of_order bars)) [
                                | inl k ↦ rw (k, Gives) tt
                                | inr k ↦
                                    rw (k, Gives) (run_checked-IsReport generate bars cash c k)
                              ])
                      ])
              ])
      ]

  -- Where a replay returns a report, whatever the strategy says, the costs and the arithmetic of floats:
  -- the curve has one point for each bar, at the bar's moment and in the bars' order; every logged trade
  -- is of one share or more, has a known entry price and an entry before its exit; and each trade was
  -- entered later than the trade before it was left, so that positions never overlap.
  pub run_backtest-IsReport :
      (generate : List (Bar F) → Option (List Signal))
      → (bars : List (Bar F)) (cash : F) (c : Costs F) (r : BacktestResult F)
      → run_backtest generate bars cash c ≡ ok r
      → IsReport bars r
  run_backtest-IsReport generate bars cash c r e =
      subst (λ o. Gives (IsReport bars) o) e (run_backtest-Gives generate bars cash c)
