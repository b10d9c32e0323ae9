-- ===== src/Folds/Tests.antt =====
-- Folds over a dozen sessions.
use automated_stock_trading.Common.{
  ℕ, zero, suc, map, some, ◌+◌, ◌-◌, ◌*◌, ◌≡◌, ◌≤◌, refl, List, [], ◌∷◌, arith, get_elem?, length,
}
use automated_stock_trading.Folds.Arguments.{rolling, expanding, nonneg, ok, Spans}
use automated_stock_trading.Folds.Rows
use automated_stock_trading.Folds.Sessions
use automated_stock_trading.Folds.Windows.{expected, generate_folds-expected}
use automated_stock_trading.Folds.Agreement.{dated_all, generate_folds-dated}
use automated_stock_trading.Folds.Split.{DataRow, fold_split}
use automated_stock_trading.Folds.Leak.{IsSafe, fold_split-IsSafe}
use automated_stock_trading.Folds.Embargo.{generate_folds-march}

abbrev spans : Spans
spans = record { scheme = rolling; train_span = 4; test_span = 2; step = 3; gap = 1 }

generate_folds-expected_example :
    (fs : List Rows.Fold) × (Rows.generate_folds 12 rolling
        (nonneg 4)
        (nonneg 2)
        (nonneg 3)
        (nonneg 1)
      ≡ ok fs)
    × ((j : ℕ) → get_elem? fs j ≡ expected spans 12 4 0 j)
generate_folds-expected_example =
    generate_folds-expected 12 rolling 4 2 3 1 (λ e. cc) (omega arith) (omega arith) (omega arith)

abbrev days : List ℕ
days = 2 ∷ 3 ∷ 5 ∷ 8 ∷ 9 ∷ 11 ∷ 12 ∷ 20 ∷ []

generate_folds-dated_example :
    Sessions.generate_folds days expanding (nonneg 3) (nonneg 1) (nonneg 2) (nonneg 1)
    ≡ dated_all days
        (Rows.generate_folds (length days) expanding (nonneg 3) (nonneg 1) (nonneg 2) (nonneg 1))
generate_folds-dated_example =
    generate_folds-dated days expanding (nonneg 3) (nonneg 1) (nonneg 2) (nonneg 1) (ground arith)

abbrev fold_at : ℕ → ℕ → Rows.Fold
fold_at k lo = record {
  index = k;
  train_start = lo;
  train_stop = lo + 4;
  test_start = lo + 5;
  test_stop = lo + 7;
}

generate_folds-march_example :
    ((fold_at 0 0).train_stop + 1 ≡ (fold_at 0 0).test_start)
    × ((fold_at 0 0).test_stop ≤ 12)
    × ((fold_at 1 3).train_stop ≡ (fold_at 0 0).train_stop + (1 - 0) * 3)
    × (rolling ≡ expanding → ((fold_at 0 0).train_start ≡ 0) × ((fold_at 1 3).train_start ≡ 0))
    × (rolling ≡ rolling
        → ((fold_at 0 0).train_start + 4 ≡ (fold_at 0 0).train_stop)
          × ((fold_at 1 3).train_start + 4 ≡ (fold_at 1 3).train_stop))
    × (2 ≤ 3 → (fold_at 0 0).test_stop ≤ (fold_at 1 3).test_start)
unfolding Rows.generate_folds
generate_folds-march_example =
    generate_folds-march 12 rolling 4 2 3 1 {fs = fold_at 0 0 ∷ fold_at 1 3 ∷ []} 0 1 (λ e. cc)
      (omega arith) (omega arith) (omega arith) refl (omega arith) refl refl

abbrev row : ℕ → DataRow ℕ
row d = record {
  index = d * 10;
  decision_date = d;
  available_at = some (d * 10 + 10);
  target_date = d + 1;
  label = [];
  anchor = d;
  instrument = 2;
}

abbrev sessions : ℕ → List ℕ
sessions zero = []
sessions (suc n) = (20 - n) ∷ sessions n

-- Twelve sessions are trained on, then two are tested.
abbrev tested : Sessions.Fold
tested = record { index = 0; train_start = 7; train_end = 18; test_start = 19; test_end = 20 }

fold_split-IsSafe_example :
    IsSafe tested
      (map row (sessions 14))
      (map row (7 ∷ 8 ∷ 9 ∷ 10 ∷ 11 ∷ 12 ∷ 13 ∷ 14 ∷ 15 ∷ 16 ∷ 17 ∷ 18 ∷ []))
      (map row (19 ∷ 20 ∷ []))
unfolding Sessions.generate_folds fold_split
fold_split-IsSafe_example =
    fold_split-IsSafe (sessions 14) rolling (nonneg 12) (nonneg 2) (nonneg 2) (nonneg 0)
      {fs = tested ∷ []} (map row (sessions 14)) 0 refl refl refl
