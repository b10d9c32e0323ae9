-- ===== src/Folds/Arguments.antt =====
-- What the two generators of folds share: their arguments, the checks on them, and their errors.
use automated_stock_trading.Common.{ℕ, suc, ◌-◌, ◌<◌, ◌≡◌, ◌≢◌, arith}

-- The `scheme` argument: one of the two texts that are known, or any other.
pub data Scheme : Type 0 where
  expanding rolling unknown : Scheme

-- An integer argument.
pub data Signed : Type 0 where
  nonneg : ℕ → Signed
  negative : Signed

-- A `ValueError` of a check or of `Fold.__post_init__`, an `IndexError`, an `AssertionError`; and
-- `out_of_fuel`, which is the model's own.
pub data FoldError : Type 0 where
  unknown_scheme small_train_span small_test_span small_step negative_gap : FoldError
  empty_window index_error overlap out_of_fuel : FoldError

pub data Outcome {ℓ} (A : Type ℓ) : Type ℓ where
  ok : A → Outcome A
  raised : FoldError → Outcome A

infixl 5 ◌>>=◌
abbrev pub ◌>>=◌ {ℓ κ} : {A : Type ℓ} {B : Type κ} → Outcome A → (A → Outcome B) → Outcome B
ok a >>= f = f a
raised e >>= f = raised e

-- The arguments once they are checked.
pub record Spans : Type 0 where
  pub scheme : Scheme
  pub train_span : ℕ
  pub test_span : ℕ
  pub step : ℕ
  pub gap : ℕ

-- `value < 1`
abbrev pub at_least_one : Signed → FoldError → Outcome ℕ
at_least_one (nonneg (suc n)) e = ok (suc n)
at_least_one _ e = raised e

abbrev pub not_negative : Signed → FoldError → Outcome ℕ
not_negative (nonneg n) e = ok n
not_negative negative e = raised e

abbrev pub known : Scheme → Outcome Scheme
known unknown = raised unknown_scheme
known s = ok s

-- The checks at the head of both functions, in their order.
unfoldable pub check_spans : Scheme → (train_span test_span step gap : Signed) → Outcome Spans
check_spans scheme train test step gap = do
  s ← known scheme
  a ← at_least_one train small_train_span
  b ← at_least_one test small_test_span
  c ← at_least_one step small_step
  g ← not_negative gap negative_gap
  ok (record { scheme = s; train_span = a; test_span = b; step = c; gap = g })

-- What the checks establish.
pub record IsChecked (c : Spans) : Type 0 where
  pub train_pos : 0 < c.train_span
  pub test_pos : 0 < c.test_span
  pub step_pos : 0 < c.step

-- The first training position, `0 if scheme == EXPANDING else max(0, train_hi - train_span)`.
unfoldable pub train_low : Spans → ℕ → ℕ
train_low c hi = elim c.scheme [ expanding ↦ 0 | _ ↦ hi - c.train_span ]

pub check_spans-ok :
    (s : Scheme) (train test step gap : ℕ)
    → s ≢ unknown
    → 0 < train
    → 0 < test
    → 0 < step
    → check_spans s (nonneg train) (nonneg test) (nonneg step) (nonneg gap)
      ≡ ok (record { scheme = s; train_span = train; test_span = test; step = step; gap = gap })
unfolding check_spans
check_spans-ok s train test step gap k a b c = ground arith

-- Checked arguments are as large as the checks ask.
pub check_spans-IsChecked :
    (s : Scheme) (train test step gap : Signed) {c : Spans}
    → check_spans s train test step gap ≡ ok c
    → IsChecked c
unfolding check_spans
check_spans-IsChecked s train test step gap e = ground arith
