-- ===== src/Folds/Sessions.antt =====
-- backtesting/walkforward.py: folds as first and last dates of their windows.
use automated_stock_trading.Common.{
  ℕ, zero, suc, ◌+◌, ◌-◌, none, some, List, [], ◌∷◌, ltb, if◌then◌else◌, length, get_elem?,
}
use automated_stock_trading.Folds.Arguments.{
  Scheme, Signed, index_error, overlap, out_of_fuel, Outcome, ok, raised, ◌>>=◌, Spans, check_spans,
  train_low,
}

-- `Fold`
pub record Fold : Type 0 where
  pub index : ℕ
  pub train_start : ℕ
  pub train_end : ℕ
  pub test_start : ℕ
  pub test_end : ℕ

-- `sessions[i]`
abbrev pub session : List ℕ → ℕ → Outcome ℕ
session sessions i = elim (get_elem? sessions i) [ none ↦ raised index_error | some d ↦ ok d ]

-- `assert fold.train_end < fold.test_start`
abbrev pub asserted : Fold → Outcome Fold
asserted f = if ltb f.train_end f.test_start then ok f else raised overlap

-- One fold, and the `assert` on it.
unfoldable pub make_fold : List ℕ → (index train_lo train_hi test_lo test_hi : ℕ) → Outcome Fold
make_fold sessions k train_lo train_hi test_lo test_hi = do
  a ← session sessions train_lo
  b ← session sessions (train_hi - 1)
  c ← session sessions test_lo
  e ← session sessions (test_hi - 1)
  asserted (record { index = k; train_start = a; train_end = b; test_start = c; test_end = e })

-- The `while` loop.
unfoldable pub folds_from : ℕ → Spans → List ℕ → (train_hi made : ℕ) → Outcome (List Fold)
unfolding make_fold train_low
folds_from zero c sessions hi k = raised out_of_fuel
folds_from (suc fuel) c sessions hi k =
    let rest = folds_from fuel c sessions (hi + c.step) (k + 1) in
    let test_lo = hi + c.gap in
    let test_hi = test_lo + c.test_span in
    if ltb (length sessions) test_hi
    then ok []
    else (do f ← make_fold sessions k (train_low c hi) hi test_lo test_hi; fs ← rest; ok (f ∷ fs))

-- `generate_folds`
unfoldable pub generate_folds :
    List ℕ → Scheme → (train_span test_span step gap : Signed) → Outcome (List Fold)
unfolding check_spans folds_from
generate_folds sessions scheme train test step gap = do
  c ← check_spans scheme train test step gap
  folds_from (suc (length sessions)) c sessions c.train_span 0
