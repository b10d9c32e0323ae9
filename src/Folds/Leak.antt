-- ===== src/Folds/Leak.antt =====
-- What the division of a dataset by a generated fold promises against look-ahead.
use automated_stock_trading.Common.{
  ℕ, zero, suc, ◌+◌, ◌≤◌, ◌<◌, ◌≡◌, refl, sym, ap, subst, some_inj, All-at, min, Bool, true, false,
  none, some, List, [], ◌∷◌, inl, inr, ltb, Bool-cases, select, length, get_elem?, All, arith,
}
use automated_stock_trading.Folds.Arguments.{
  Scheme, Signed, Outcome, ok, raised, ◌>>=◌, Spans, check_spans, train_low,
}
use automated_stock_trading.Folds.Sessions.{Fold, make_fold, folds_from, generate_folds}
use automated_stock_trading.Folds.Split.{
  DataRow, is_within, first_decision, trains, split_with, fold_split, min_train_rows,
}

-- The training window ends before the test window starts.
abbrev pub IsApart : Fold → Type 0
IsApart f = f.train_end < f.test_start

make_fold-IsApart :
    (sessions : List ℕ) (k a b c e : ℕ) {f : Fold} → make_fold sessions k a b c e ≡ ok f → IsApart f
unfolding make_fold
make_fold-IsApart sessions k a b c e h = ground arith

cons_inv :
    (m : Outcome Fold) (rest : Outcome (List Fold)) {f : Fold} {fs : List Fold}
    → (do g ← m; gs ← rest; ok (g ∷ gs)) ≡ ok (f ∷ fs)
    → (m ≡ ok f) × (rest ≡ ok fs)
cons_inv (raised e) rest h = absurd cc
cons_inv (ok g) (raised e) h = absurd cc
cons_inv (ok g) (ok gs) h = (cc, cc)

folds_from-IsApart :
    (fuel : ℕ) (c : Spans) (sessions : List ℕ) (hi k : ℕ) (fs : List Fold)
    → folds_from fuel c sessions hi k ≡ ok fs
    → All IsApart fs
unfolding folds_from
folds_from-IsApart zero c sessions hi k fs h = absurd cc
folds_from-IsApart (suc fuel) c sessions hi k [] h = tt
folds_from-IsApart (suc fuel) c sessions hi k (f ∷ fs) h =
    let lo = hi + c.gap in
    elim (Bool-cases (ltb (length sessions) (lo + c.test_span))) [
      | inl e ↦ absurd (nil_cons (rw (e, folds_from) at h))
      | inr e ↦
          let (own, rest) =
            cons_inv (make_fold sessions k (train_low c hi) hi lo (lo + c.test_span))
              (folds_from fuel c sessions (hi + c.step) (k + 1)) (rw e at h) in
          (
            make_fold-IsApart sessions k (train_low c hi) hi lo (lo + c.test_span) own,
            folds_from-IsApart fuel c sessions (hi + c.step) (k + 1) fs rest,
          )
    ]
  where
    nil_cons : {g : Fold} {gs : List Fold} → ok [] ≡ ok (g ∷ gs) → ⊥
    nil_cons e = cc

generate_folds-IsApart :
    (sessions : List ℕ) (scheme : Scheme) (a b c d : Signed) {fs : List Fold}
    → generate_folds sessions scheme a b c d ≡ ok fs
    → All IsApart fs
unfolding generate_folds
generate_folds-IsApart sessions scheme a b c d {fs} h = go (check_spans scheme a b c d) h
  where
    go :
        (m : Outcome Spans)
        → (do c ← m; folds_from (suc (length sessions)) c sessions c.train_span 0) ≡ ok fs
        → All IsApart fs
    go (raised e) k = absurd cc
    go (ok c) k = folds_from-IsApart (suc (length sessions)) c sessions c.train_span 0 fs k

module _ {F : Type 0} where
  first_decision-le :
      (t : ℕ) (rs : List (DataRow F))
      → (first_decision t rs ≤ t) × All (λ r. first_decision t rs ≤ r.index) rs
  unfolding first_decision
  first_decision-le t [] = (omega arith, tt)
  first_decision-le t (r ∷ rs) =
      let ih = first_decision-le (min t r.index) rs in
      (omega (arith, ih.0), (omega (arith, ih.0), ih.1))

  All-select :
      {P : DataRow F → Type 0} (p : DataRow F → Bool) (rows : List (DataRow F))
      → ((r : DataRow F) → p r ≡ true → P r)
      → All P (select p rows)
  All-select p [] h = tt
  All-select p (r ∷ rows) h = elim (Bool-cases (p r)) [
    | inl e ↦ rw e (h r e, All-select p rows h)
    | inr e ↦ rw e (All-select p rows h)
  ]

  -- The label of `a` is known when `b` is decided.
  abbrev pub IsKnownAt : (b a : DataRow F) → Type 0
  IsKnownAt b a = (t : ℕ) × (a.available_at ≡ some t) × (t ≤ b.index)

  -- Every row to train on lies before every row to test, and its label is known at each of their
  -- decisions; there are rows to test, namely all of the test window, and enough to train on.
  abbrev pub IsSafe : Fold → List (DataRow F) → (train test : List (DataRow F)) → Type 0
  IsSafe f rows train test =
      All (λ a. All (λ b. (a.decision_date < b.decision_date) × IsKnownAt b a) test) train
      × (test ≡ select (is_within f.test_start f.test_end) rows)
      × (1 ≤ length test)
      × (min_train_rows ≤ length train)

  known_at :
      (f : Fold) (before : ℕ) (a b : DataRow F)
      → IsApart f
      → trains f before a ≡ true
      → before ≤ b.index
      → is_within f.test_start f.test_end b ≡ true
      → (a.decision_date < b.decision_date) × IsKnownAt b a
  known_at f before a b h t le w = ground arith

  -- One training row against all rows to test.
  row_known :
      (f : Fold) (before : ℕ) (a : DataRow F) (test : List (DataRow F))
      → IsApart f
      → trains f before a ≡ true
      → All (λ b. is_within f.test_start f.test_end b ≡ true) test
      → All (λ b. before ≤ b.index) test
      → All (λ b. (a.decision_date < b.decision_date) × IsKnownAt b a) test
  row_known f before a [] h t w le = tt
  row_known f before a (b ∷ bs) h t (w, ws) (le, les) =
      (known_at f before a b h t le w, row_known f before a bs h t ws les)

  split_with-IsSafe :
      (f : Fold) (rows test : List (DataRow F)) {train test' : List (DataRow F)}
      → IsApart f
      → All (λ b. is_within f.test_start f.test_end b ≡ true) test
      → split_with f rows test ≡ some (train, test')
      → All (λ a. All (λ b. (a.decision_date < b.decision_date) × IsKnownAt b a) test) train
        × (test' ≡ test)
        × (1 ≤ length test)
        × (min_train_rows ≤ length train)
  unfolding split_with
  split_with-IsSafe f rows [] h w e = absurd cc
  split_with-IsSafe f rows (r ∷ rs) {train} h w e =
      let before = first_decision r.index rs in
      let chosen = select (trains f before) rows in
      let (own, rest) = first_decision-le r.index rs in
      let safe =
        All-select (trains f before) rows λ a t. row_known f before a (r ∷ rs) h t w (own, rest) in
      elim (Bool-cases (ltb (length chosen) min_train_rows)) [
        | inl few ↦ absurd (none_some (rw few at e))
        | inr many ↦
            let same = rw many at e in
            (
              subst
                  (All λ a. All (λ b. (a.decision_date < b.decision_date) × IsKnownAt b a) (r ∷ rs))
                  (fst_eq same) safe,
              snd_eq same,
              omega arith,
              subst (λ l. min_train_rows ≤ length l) (fst_eq same) (enough (length chosen) many),
            )
      ]
    where
      none_some : {p : List (DataRow F) × List (DataRow F)} → none ≡ some p → ⊥
      none_some e = cc

      fst_eq : {p q : List (DataRow F) × List (DataRow F)} → some p ≡ some q → p.0 ≡ q.0
      fst_eq e = ap (λ p. p.0) (some_inj.0 e)

      snd_eq : {p q : List (DataRow F) × List (DataRow F)} → some p ≡ some q → q.1 ≡ p.1
      snd_eq e = ap (λ p. p.1) (sym (some_inj.0 e))

      enough : (n : ℕ) → ltb n min_train_rows ≡ false → min_train_rows ≤ n
      enough n e = ground arith

  -- For a fold that `generate_folds` returned over any sessions, where a dataset is divided by it:
  -- every row to train on is dated before every row to test, its label is known by the time of each
  -- of their decisions, the rows to test are all rows of the test window, there is at least one, and
  -- at least ten rows are left to train on.
  pub fold_split-IsSafe :
      (sessions : List ℕ) (scheme : Scheme) (train_span test_span step gap : Signed)
      {fs : List Fold} (rows : List (DataRow F)) (i : ℕ) {f : Fold} {train test : List (DataRow F)}
      → generate_folds sessions scheme train_span test_span step gap ≡ ok fs
      → get_elem? fs i ≡ some f
      → fold_split f rows ≡ some (train, test)
      → IsSafe f rows train test
  unfolding fold_split
  fold_split-IsSafe sessions scheme a b c d {fs} rows i {f} {train} {test} g at e =
      let window = select (is_within f.test_start f.test_end) rows in
      let (safe, same, some_rows, enough) =
        split_with-IsSafe f rows window
          (All-at IsApart fs i (generate_folds-IsApart sessions scheme a b c d g) at)
          (All-select (is_within f.test_start f.test_end) rows λ r w. w) e in
      rw same (safe, refl, some_rows, enough)
