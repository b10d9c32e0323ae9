-- ===== src/Folds/Rows.antt =====
-- forecasting/backtesting/walkforward.py: folds as ranges of row positions.
use automated_stock_trading.Common.{
  ℕ, zero, suc, ◌+◌, ◌-◌, ◌||◌, List, [], ◌∷◌, ltb, leb, if◌then◌else◌,
}
use automated_stock_trading.Folds.Arguments.{
  Scheme, Signed, empty_window, overlap, out_of_fuel, Outcome, ok, raised, ◌>>=◌, Spans,
  check_spans, train_low,
}

-- `Fold`, with each range by its two ends.
pub record Fold : Type 0 where
  pub index : ℕ
  pub train_start : ℕ
  pub train_stop : ℕ
  pub test_start : ℕ
  pub test_stop : ℕ

-- `__post_init__`: an empty range raises, and so does a training range that reaches the test range,
-- `train.stop - 1 < test.start`.
unfoldable pub post_init : Fold → Outcome Fold
post_init f =
    if leb f.train_stop f.train_start || leb f.test_stop f.test_start
    then raised empty_window
    else if ltb (f.train_stop - 1) f.test_start
    then ok f
    else raised overlap

-- The `while` loop, from a value of `train_hi` and a number of folds made so far.
unfoldable pub folds_from : ℕ → Spans → (n_rows train_hi made : ℕ) → Outcome (List Fold)
unfolding post_init train_low
folds_from zero c n hi k = raised out_of_fuel
folds_from (suc fuel) c n hi k =
    let rest = folds_from fuel c n (hi + c.step) (k + 1) in
    let test_lo = hi + c.gap in
    let test_hi = test_lo + c.test_span in
    if ltb n test_hi then ok [] else (do
      f ← post_init (record {
        index = k;
        train_start = train_low c hi;
        train_stop = hi;
        test_start = test_lo;
        test_stop = test_hi;
      })
      fs ← rest
      ok (f ∷ fs))

-- `generate_folds`
unfoldable pub generate_folds :
    ℕ → Scheme → (train_span test_span step gap : Signed) → Outcome (List Fold)
unfolding check_spans folds_from
generate_folds n scheme train test step gap = do
  c ← check_spans scheme train test step gap
  folds_from (suc n) c n c.train_span 0
