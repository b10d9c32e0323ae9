-- ===== src/Folds/Agreement.antt =====
-- The two generators agree: the folds over session dates are those over row positions, dated.
use automated_stock_trading.Common.{
  ℕ, zero, suc, ◌+◌, ◌-◌, ◌≤◌, ◌<◌, ◌≡◌, refl, List, [], ◌∷◌, map, arith, ltb, length, Bool-cases,
  inl, inr,
}
use automated_stock_trading.Folds.Arguments.{
  Scheme, Signed, Outcome, ok, raised, ◌>>=◌, Spans, IsChecked, check_spans, check_spans-IsChecked,
  train_low,
}
use automated_stock_trading.Folds.Rows
use automated_stock_trading.Folds.Windows.{window, post_init-window}
use automated_stock_trading.Folds.Sessions.{Fold, session, make_fold, folds_from, generate_folds}

-- The date of a session, for a position within the list.
abbrev pub date : List ℕ → ℕ → ℕ
date [] i = 0
date (d ∷ ds) zero = d
date (d ∷ ds) (suc i) = date ds i

-- Each date comes after the one before it.
abbrev pub IsAfter : ℕ → List ℕ → Type 0
IsAfter d [] = Unit
IsAfter d (x ∷ xs) = (d < x) × IsAfter x xs

abbrev pub IsAscending : List ℕ → Type 0
IsAscending [] = Unit
IsAscending (d ∷ ds) = IsAfter d ds

-- A fold over row positions, as dates.
abbrev pub dated : List ℕ → Rows.Fold → Fold
dated ds f = record {
  index = f.index;
  train_start = date ds f.train_start;
  train_end = date ds (f.train_stop - 1);
  test_start = date ds f.test_start;
  test_end = date ds (f.test_stop - 1);
}

abbrev pub dated_all : List ℕ → Outcome (List Rows.Fold) → Outcome (List Fold)
dated_all ds (ok fs) = ok (map (dated ds) fs)
dated_all ds (raised e) = raised e

session-date : (ds : List ℕ) (i : ℕ) → i < length ds → session ds i ≡ ok (date ds i)
session-date [] i h = elim h [ ]
session-date (d ∷ ds) zero h = refl
session-date (d ∷ ds) (suc i) h = session-date ds i (omega arith)

IsAfter-date : (d : ℕ) (ds : List ℕ) (i : ℕ) → IsAfter d ds → i < length ds → d < date ds i
IsAfter-date d [] i a h = elim h [ ]
IsAfter-date d (x ∷ xs) zero a h = a.0
IsAfter-date d (x ∷ xs) (suc i) a h = omega (arith, IsAfter-date x xs i a.1, a.0)

date_mono : (ds : List ℕ) (i j : ℕ) → IsAscending ds → i < j → j < length ds → date ds i < date ds j
date_mono [] i j a h k = elim k [ ]
date_mono (d ∷ ds) i zero a h k = elim h [ ]
date_mono (d ∷ ds) zero (suc j) a h k = IsAfter-date d ds j a (omega arith)
date_mono (d ∷ []) (suc i) (suc j) a h k = absurd (omega arith)
date_mono (d ∷ e ∷ ds) (suc i) (suc j) a h k =
    date_mono (e ∷ ds) i j a.1 (omega arith) (omega arith)

train_low-lt :
    (c : Spans) (n hi : ℕ) → IsChecked c → hi + c.gap + c.test_span ≤ n → train_low c hi < n
unfolding train_low
train_low-lt c n hi v fits = ground arith

-- Where the test window fits, no look-up and no assertion fails.
make_fold-dated :
    (ds : List ℕ) (c : Spans) (k hi : ℕ)
    → IsAscending ds
    → IsChecked c
    → 0 < hi
    → hi + c.gap + c.test_span ≤ length ds
    → make_fold ds k (train_low c hi) hi (hi + c.gap) (hi + c.gap + c.test_span)
      ≡ ok (dated ds (window c k hi))
unfolding make_fold
make_fold-dated ds c k hi a v pos fits =
    rw
      (
        session-date ds (train_low c hi) (train_low-lt c (length ds) hi v fits),
        session-date ds (hi - 1) (omega (arith, v.test_pos)),
        session-date ds (hi + c.gap) (omega (arith, v.test_pos)),
        session-date ds (hi + c.gap + c.test_span - 1) (omega (arith, v.test_pos)),
      )
      (ground (arith, date_mono ds (hi - 1) (hi + c.gap) a))

cons_dated :
    (ds : List ℕ) (f : Rows.Fold) (r : Outcome (List Rows.Fold))
    → (dated_all ds r >>= λ fs. ok (dated ds f ∷ fs)) ≡ dated_all ds (r >>= λ fs. ok (f ∷ fs))
cons_dated ds f (ok fs) = refl
cons_dated ds f (raised e) = refl

folds_from-dated :
    (fuel : ℕ) (ds : List ℕ) (c : Spans) (hi k : ℕ)
    → IsAscending ds
    → IsChecked c
    → 0 < hi
    → folds_from fuel c ds hi k ≡ dated_all ds (Rows.folds_from fuel c (length ds) hi k)
unfolding folds_from Rows.folds_from
folds_from-dated zero ds c hi k a v pos = refl
folds_from-dated (suc fuel) ds c hi k a v pos =
    let rest = folds_from-dated fuel ds c (hi + c.step) (k + 1) a v (omega arith) in
    elim (Bool-cases (ltb (length ds) (hi + c.gap + c.test_span))) [
      | inl short ↦ rw (short, folds_from, Rows.folds_from)
      | inr room ↦
          rw
            (
              room,
              make_fold-dated ds c k hi a v pos (ground arith),
              post_init-window c k hi v pos,
              rest,
            )
            (cons_dated ds (window c k hi)
              (Rows.folds_from fuel c (length ds) (hi + c.step) (k + 1)))
    ]

checked_dated :
    (ds : List ℕ) (r : Outcome Spans)
    → IsAscending ds
    → ((c : Spans) → r ≡ ok c → IsChecked c)
    → (r >>= λ c. folds_from (suc (length ds)) c ds c.train_span 0)
      ≡ dated_all ds (r >>= λ c. Rows.folds_from (suc (length ds)) c (length ds) c.train_span 0)
checked_dated ds (ok c) a h =
    let v = h c refl in folds_from-dated (suc (length ds)) ds c c.train_span 0 a v v.train_pos
checked_dated ds (raised e) a h = refl

-- Over ascending session dates, and whatever the arguments, the generator over sessions gives the
-- folds of the generator over rows, dated, or raises the same error: no assertion fails.
pub generate_folds-dated :
    (ds : List ℕ) (s : Scheme) (train test step gap : Signed)
    → IsAscending ds
    → generate_folds ds s train test step gap
      ≡ dated_all ds (Rows.generate_folds (length ds) s train test step gap)
unfolding generate_folds Rows.generate_folds
generate_folds-dated ds s train test step gap a =
    checked_dated ds (check_spans s train test step gap) a
      (λ c e. check_spans-IsChecked s train test step gap e)
