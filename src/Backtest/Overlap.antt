-- ===== src/Backtest/Overlap.antt =====
-- Overlapping folds in backtesting/engine.py: two forecasts of an instrument for one date.
use automated_stock_trading.Common.{
  ℕ, zero, suc, ◌<◌, ◌≡◌, inl, inr, refl, sym, ap, ◌∙◌, subst, Bool, true, Bool-cases, Option, none,
  some, List, [], ◌∷◌, ◌++◌, exists, length, get_elem?, ◌==◌, some_inj, arith, max,
}
use automated_stock_trading.Floats.{Floats, ◌⊘◌, float}
use automated_stock_trading.Backtest.Rows.{
  Backtest, BacktestPrediction, failed, Store, Dataset, Tools, Sink,
}
use automated_stock_trading.Backtest.Scoring.{refuse_if, ◌>>=◌}
use automated_stock_trading.Backtest.Engine.{
  empty_sink, bulk_create, same_fold, same_prediction, simulate_all, save_all, scorer,
  replay_and_save, execute, or_failed, run_backtest,
}
use automated_stock_trading.Backtest.Counts.{Returns, Returns-bind, Returns-true, Returns-then}

never-Returns : {A : Type 0} (m : Option A) → Returns (λ _. ⊥) m → m ≡ none
never-Returns none h = refl
never-Returns (some a) h = absurd h

module _ {A : Type 0} (clash : A → A → Bool) where
  exists-right : (p : A → Bool) (xs ys : List A) → exists p xs ≡ true → exists p (xs ++ ys) ≡ true
  exists-right p [] ys h = absurd cc
  exists-right p (x ∷ xs) ys h = ground (arith, exists-right p xs ys)

  exists-last : (p : A → Bool) (xs : List A) (r : A) → p r ≡ true → exists p (xs ++ r ∷ []) ≡ true
  exists-last p [] r h = rw h refl
  exists-last p (x ∷ xs) r h = ground (arith, exists-last p xs r h)

  -- A row that clashes with the table is not saved, nor are the others.
  bulk_create-clash :
      (table rows : List A) (j : ℕ) {b : A}
      → get_elem? rows j ≡ some b
      → exists (clash b) table ≡ true
      → Returns (λ _. ⊥) (bulk_create clash table rows)
  unfolding bulk_create
  bulk_create-clash table [] j e h = absurd cc
  bulk_create-clash table (r ∷ rows) zero {b} e h =
      rw (subst (λ x. exists (clash x) table ≡ true) (sym (some_inj.0 e)) h) tt
  bulk_create-clash table (r ∷ rows) (suc j) {b} e h = elim (Bool-cases (exists (clash r) table)) [
    | inl k ↦ rw k tt
    | inr k ↦
        rw k
          (bulk_create-clash (table ++ r ∷ []) rows j e (exists-right (clash b) table (r ∷ []) h))
  ]

  -- Two rows that clash are not saved.
  bulk_create-twice :
      (table rows : List A) (i j : ℕ) {a b : A}
      → i < j
      → get_elem? rows i ≡ some a
      → get_elem? rows j ≡ some b
      → clash b a ≡ true
      → Returns (λ _. ⊥) (bulk_create clash table rows)
  unfolding bulk_create
  bulk_create-twice table [] i j lt e g h = absurd cc
  bulk_create-twice table (r ∷ rows) i zero lt e g h = absurd (omega arith)
  bulk_create-twice table (r ∷ rows) zero (suc j) {a} {b} lt e g h =
      elim (Bool-cases (exists (clash r) table)) [
        | inl k ↦ rw k tt
        | inr k ↦ rw k (
            bulk_create-clash (table ++ r ∷ []) rows j g (
              exists-last (clash b) table r (subst (λ x. clash b x ≡ true) (sym (some_inj.0 e)) h)))
      ]
  bulk_create-twice table (r ∷ rows) (suc i) (suc j) lt e g h =
      elim (Bool-cases (exists (clash r) table)) [
        | inl k ↦ rw k tt
        | inr k ↦ rw k (bulk_create-twice (table ++ r ∷ []) rows i j (omega arith) e g h)
      ]

module _ {F : Type 0} ⦃f : Floats F⦄ where
  -- Where the dataset is built and its folds are scored, and two of the forecasts are of one instrument
  -- for one target date in this run, the whole run fails, and no row of it is saved.
  pub run_backtest_overlap :
      (tools : Tools F) (bt : Backtest F) (s : Store F) {ds : Dataset F} {sink : Sink F} (i j : ℕ)
      {a b : BacktestPrediction F}
      → tools.build_dataset bt ≡ some ds
      → scorer bt.fit_mode tools bt ds s.run.id empty_sink ≡ some sink
      → i < j
      → get_elem? sink.pred_rows i ≡ some a
      → get_elem? sink.pred_rows j ≡ some b
      → same_prediction b a ≡ true
      → run_backtest tools bt s ≡ record s { run = record s.run { status = failed } }
  unfolding run_backtest or_failed execute replay_and_save save_all
  run_backtest_overlap tools bt s {ds} {sink} i j d e lt p q h = ap (or_failed s) (
      ap
        (λ o. o >>= λ ds. scorer bt.fit_mode tools bt ds s.run.id empty_sink >>= λ sink.
          replay_and_save tools bt ds sink s)
        d
      ∙ ap (λ o. o >>= λ sink. replay_and_save tools bt ds sink s) e
      ∙ never-Returns (replay_and_save tools bt ds sink s) (
          Returns-then (λ _. ⊥) (refuse_if (sink.used_folds == 0)) _
            (Returns-bind (λ _. Unit) (λ _. ⊥)
              (simulate_all bt s.run.id (bt.initial_cash ⊘ float (max (length sink.series) 1))
                sink.series)
              _ (Returns-true _)
              λ sim _.
                Returns-bind (λ _. Unit) (λ _. ⊥) (bulk_create same_fold s.folds sink.fold_rows) _
                  (Returns-true _)
                  λ folds _.
                    Returns-bind (λ _. ⊥) (λ _. ⊥)
                      (bulk_create same_prediction s.predictions sink.pred_rows) _
                      (bulk_create-twice same_prediction s.predictions sink.pred_rows i j lt p q h)
                      λ t k. absurd k)))
