-- ===== src/Folds/Windows.antt =====
-- Which folds the generator over rows makes.
use automated_stock_trading.Common.{
  ℕ, zero, suc, ◌+◌, ◌-◌, ◌*◌, ◌≤◌, ◌<◌, ◌≡◌, ◌≢◌, sym, ap₂, ◌∙◌, Option, none, some, List, [], ◌∷◌,
  arith, ltb, leb, if◌then◌else◌, get_elem?, ltb→lt, Bool-cases, inl, inr,
}
use automated_stock_trading.Folds.Arguments.{
  Scheme, nonneg, unknown, check_spans-ok, ok, Spans, IsChecked, train_low,
}
use automated_stock_trading.Folds.Rows.{Fold, post_init, folds_from, generate_folds}

-- The window of a fold whose training range ends at `hi`.
abbrev pub window : Spans → (index hi : ℕ) → Fold
window c k hi = record {
  index = k;
  train_start = train_low c hi;
  train_stop = hi;
  test_start = hi + c.gap;
  test_stop = hi + c.gap + c.test_span;
}

-- The fold that ends its training at `hi`, if its test range fits the rows.
abbrev pub fitting : Spans → (n index hi : ℕ) → Option Fold
fitting c n k hi = if leb (hi + c.gap + c.test_span) n then some (window c k hi) else none

-- The fold at a place, by the formula.
abbrev pub expected : Spans → (n hi k j : ℕ) → Option Fold
expected c n hi k j = fitting c n (k + j) (hi + j * c.step)

pub post_init-window :
    (c : Spans) (k hi : ℕ) → IsChecked c → 0 < hi → post_init (window c k hi) ≡ ok (window c k hi)
unfolding post_init train_low
post_init-window c k hi v pos = ground arith

none_expected :
    (c : Spans) (n hi k : ℕ)
    → n < hi + c.gap + c.test_span
    → (j : ℕ) → get_elem? {A = Fold} [] j ≡ expected c n hi k j
none_expected c n hi k h j = ground arith

some_expected :
    (c : Spans) (n hi k : ℕ) (fs : List Fold)
    → hi + c.gap + c.test_span ≤ n
    → ((j : ℕ) → get_elem? fs j ≡ expected c n (hi + c.step) (k + 1) j)
    → (j : ℕ) → get_elem? (window c k hi ∷ fs) j ≡ expected c n hi k j
some_expected c n hi k fs fits at zero =
    let here : fitting c n k hi ≡ some (window c k hi) = ground arith in
    sym (ap₂ (fitting c n) (omega arith) (omega arith) ∙ here)
some_expected c n hi k fs fits at (suc j) = at j ∙ ap₂ (fitting c n) (omega arith) (omega arith)

-- With fuel beyond the rows left, the loop returns, and makes exactly the folds expected.
pub folds_from_lem :
    (fuel : ℕ) (c : Spans) (n hi k : ℕ)
    → IsChecked c
    → 0 < hi
    → n - hi < fuel
    → (fs : List Fold) × (folds_from fuel c n hi k ≡ ok fs)
      × ((j : ℕ) → get_elem? fs j ≡ expected c n hi k j)
unfolding folds_from
folds_from_lem zero c n hi k v pos enough = absurd (omega arith)
folds_from_lem (suc fuel) c n hi k v pos enough =
    elim (Bool-cases (ltb n (hi + c.gap + c.test_span))) [
      | inl short ↦ ([], rw (short, folds_from), none_expected c n hi k (ltb→lt _ _ short))
      | inr room ↦
          let fits : hi + c.gap + c.test_span ≤ n = ground arith in
          let (fs, e, at) =
            folds_from_lem fuel c n (hi + c.step) (k + 1) v (omega arith)
              (omega (arith, v.step_pos, v.test_pos)) in
          (
            window c k hi ∷ fs,
            rw (room, post_init-window c k hi v pos, e),
            some_expected c n hi k fs fits at,
          )
    ]

-- With checked arguments the generator returns, and its folds are those of the formula: the fold at
-- place `j` ends its training at `train_span + j * step`, and is there exactly while its test range
-- fits the rows.
pub generate_folds-expected :
    (n : ℕ) (s : Scheme) (train test step gap : ℕ)
    → s ≢ unknown
    → 0 < train
    → 0 < test
    → 0 < step
    → let c : Spans = record {
      scheme = s;
      train_span = train;
      test_span = test;
      step = step;
      gap = gap;
    } in
      (fs : List Fold) × (generate_folds n s (nonneg train) (nonneg test) (nonneg step) (nonneg gap)
        ≡ ok fs)
      × ((j : ℕ) → get_elem? fs j ≡ expected c n train 0 j)
unfolding generate_folds
generate_folds-expected n s train test step gap k a b c =
    let spans : Spans = record {
      scheme = s;
      train_span = train;
      test_span = test;
      step = step;
      gap = gap;
    } in
    let (fs, e, at) =
      folds_from_lem (suc n) spans n train 0 (record { train_pos = a; test_pos = b; step_pos = c })
        a (omega arith) in
    (fs, rw (check_spans-ok s train test step gap k a b c) e, at)
