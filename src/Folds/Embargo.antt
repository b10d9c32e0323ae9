-- ===== src/Folds/Embargo.antt =====
-- What the windows of a run of folds promise: an embargo before each test, and a march forward.
use automated_stock_trading.Common.{
  ℕ, ◌+◌, ◌-◌, ◌*◌, ◌≤◌, ◌<◌, ◌≡◌, ◌≢◌, refl, sym, ap, ◌∙◌, some, List, arith, get_elem?,
}
use automated_stock_trading.Folds.Arguments.{
  Scheme, expanding, rolling, unknown, nonneg, ok, Spans, train_low,
}
use automated_stock_trading.Folds.Rows.{Fold, generate_folds}
use automated_stock_trading.Folds.Windows.{fitting, generate_folds-expected}

fitting_lem :
    (c : Spans) (n k hi : ℕ) {f : Fold}
    → fitting c n k hi ≡ some f
    → (f.train_stop ≡ hi)
      × (f.test_start ≡ hi + c.gap)
      × (f.test_stop ≡ hi + c.gap + c.test_span)
      × (f.test_stop ≤ n)
      × (f.train_start ≡ train_low c hi)
fitting_lem c n k hi e = ground arith

-- Where training starts, by the scheme.
train_low_lem :
    (c : Spans) (hi : ℕ)
    → c.train_span ≤ hi
    → (c.scheme ≡ expanding → train_low c hi ≡ 0)
      × (c.scheme ≡ rolling → train_low c hi + c.train_span ≡ hi)
unfolding train_low
train_low_lem c hi le = (λ e. rw e refl, λ e. rw e (omega arith))

ok-injective {ℓ} : {A : Type ℓ} {a b : A} → ok a ≡ ok b → a ≡ b
ok-injective e = cc

steps_between : (i j s : ℕ) → i < j → (i * s + (j - i) * s ≡ j * s) × (s ≤ (j - i) * s)
steps_between i j s h =
    let whole : i + (j - i) ≡ j = omega arith in
    let apart : i * s + (j - i) * s ≡ (i + (j - i)) * s = omega arith in
    (apart ∙ ap (λ (m : ℕ). m * s) whole, grind arith)

-- Of two folds of a run over rows, with a known scheme and spans and step of at least one, the
-- earlier one leaves `gap` rows between training and test and tests within the rows; the later one
-- ends its training `step` rows later for each place between them; under the expanding scheme both
-- train from the first row on, under the rolling one both on `train` rows; and if the step is at
-- least the test span no row is tested by both.
pub generate_folds-march :
    (n : ℕ) (s : Scheme) (train test step gap : ℕ) {fs : List Fold} (i j : ℕ) {f g : Fold}
    → s ≢ unknown
    → 0 < train
    → 0 < test
    → 0 < step
    → generate_folds n s (nonneg train) (nonneg test) (nonneg step) (nonneg gap) ≡ ok fs
    → i < j
    → get_elem? fs i ≡ some f
    → get_elem? fs j ≡ some g
    → (f.train_stop + gap ≡ f.test_start)
      × (f.test_stop ≤ n)
      × (g.train_stop ≡ f.train_stop + (j - i) * step)
      × (s ≡ expanding → (f.train_start ≡ 0) × (g.train_start ≡ 0))
      × (s ≡ rolling
          → (f.train_start + train ≡ f.train_stop) × (g.train_start + train ≡ g.train_stop))
      × (test ≤ step → f.test_stop ≤ g.test_start)
generate_folds-march n s train test step gap i j k a b c e h ei ej =
    let spans : Spans = record {
      scheme = s;
      train_span = train;
      test_span = test;
      step = step;
      gap = gap;
    } in
    let (fs', e', at) = generate_folds-expected n s train test step gap k a b c in
    let same = ok-injective (sym e ∙ e') in
    let first =
      fitting_lem spans n (0 + i) (train + i * step)
        (sym (at i) ∙ ap (λ l. get_elem? l i) (sym same) ∙ ei) in
    let second =
      fitting_lem spans n (0 + j) (train + j * step)
        (sym (at j) ∙ ap (λ l. get_elem? l j) (sym same) ∙ ej) in
    let apart = steps_between i j step h in
    let low = train_low_lem spans (train + i * step) (omega arith) in
    let low' = train_low_lem spans (train + j * step) (omega arith) in
    let start = first.4 in
    let start' = second.4 in
    (
      omega arith,
      omega arith,
      omega arith,
      (λ e. (start ∙ low.0 e, start' ∙ low'.0 e)),
      (λ e. (
        ap (λ k. k + train) start ∙ low.1 e ∙ sym first.0,
        ap (λ k. k + train) start' ∙ low'.1 e ∙ sym second.0,
      )),
      λ wide. omega arith,
    )
