-- ===== src/Modeling/Decisions.antt =====
-- That `build_target`, `decision_filter` and `derive_target_date` of modeling/targets.py agree.
use automated_stock_trading.Common.{
  ℕ, ◌+◌, ◌≤◌, ◌<◌, ◌≡◌, ◌≢◌, ◌⊎◌, refl, sym, ap, ap₂, ◌∙◌, subst, ◌==◌, ==_iff, Option, none, some,
  some_inj, List, [], ◌∷◌, map, inl, inr, Bool-cases, All, sort_by,
}
use automated_stock_trading.Floats.{Floats}
use automated_stock_trading.Feed.Dates.{weekday}
use automated_stock_trading.Search.Rows.{Task}
use automated_stock_trading.Modeling.Targets.{
  RawSpec, Spec, ahead_by, anchored, steps_of, Checked, ok, error, IsValid, Passes, validate_spec,
  validate_spec-Passes, filtered, decision_filter, derive_target_date, ◌>>=◌,
}
use automated_stock_trading.Modeling.Labels.{
  OhlcvRow, Label, is_later, get_indexer, label_at, label_of, labelled,
}
use automated_stock_trading.Modeling.Build.{spec_task, build_target}
use automated_stock_trading.Modeling.Forward.{
  get_indexer-at, Fits, IsAfter, IsDaily, label_at-IsAfter,
}

Checked-cases : {A : Type 0} (m : Checked A) → ((a : A) × (m ≡ ok a)) ⊎ ((a : A) → m ≢ ok a)
Checked-cases (ok a) = inl (a, refl)
Checked-cases (error e) = inr (λ a h. cc)

ok_inj : {A : Type 0} {a b : A} → ok a ≡ ok b → a ≡ b
ok_inj {a} e = ap (λ m. value a m) e
  where
    value : {A : Type 0} → A → Checked A → A
    value a (ok b) = b
    value a (error e) = a

pub filtered-Fits :
    (local_date : ℕ → ℕ) (spec : Spec) (index : List ℕ)
    → All (λ ts. Fits spec (local_date ts)) (filtered local_date spec index)
filtered-Fits local_date (ahead_by t h) [] = tt
filtered-Fits local_date (ahead_by t h) (x ∷ xs) = (tt, filtered-Fits local_date (ahead_by t h) xs)
filtered-Fits local_date (steps_of n) [] = tt
filtered-Fits local_date (steps_of n) (x ∷ xs) = (tt, filtered-Fits local_date (steps_of n) xs)
filtered-Fits local_date (anchored entry exit) [] = tt
filtered-Fits local_date (anchored entry exit) (x ∷ xs) =
    let rest = filtered-Fits local_date (anchored entry exit) xs in
    elim (Bool-cases (weekday (local_date x) == entry)) [
      | inl e ↦ rw e ((==_iff (weekday (local_date x)) entry).0 e, rest)
      | inr e ↦ rw e rest
    ]

module _ {F : Type 0} ⦃f : Floats F⦄ (local_date : ℕ → ℕ) where
  -- The target date of a row follows its decision and is the date that is derived for it, if one is;
  -- the label is known on the next date.
  abbrev pub IsForward : RawSpec → Label F → Type 0
  IsForward raw row =
      (row.target_date ≡ none → (row.y ≡ none) × (row.available_on ≡ none))
      × ((t : ℕ)
          → row.target_date ≡ some t
          → (local_date row.decision < t)
            × (row.available_on ≡ some (t + 1))
            × (row.y ≢ none)
            × ((e : ℕ) → derive_target_date raw (local_date row.decision) ≡ ok (some e) → e ≡ t))

  -- The same for a row with its bar.
  label_of-IsForward :
      (raw : RawSpec) (spec : Spec) (ts : ℕ) (m : Option (List F × OhlcvRow F))
      → validate_spec raw ≡ ok spec
      → ((y : List F) (b : OhlcvRow F)
          → m ≡ some (y, b)
          → IsAfter spec (local_date ts) (local_date b.timestamp))
      → IsForward raw (label_of local_date ts m)
  unfolding derive_target_date
  label_of-IsForward raw spec ts none v after = ((λ _. (refl, refl)), λ t e. absurd cc)
  label_of-IsForward raw spec ts (some (y, b)) v after =
      let (lt, meets) = after y b refl in
      (
        (λ e. absurd cc),
        λ t e.
            let date = some_inj.0 e in
            (
              subst (λ k. local_date ts < k) date lt,
              ap (λ k. some (k + 1)) date,
              (λ n. cc),
              λ d q. meets d (ok_inj (rw v at q)) ∙ date,
            ),
      )

  label_of-decision :
      (ts : ℕ) (m : Option (List F × OhlcvRow F)) → (label_of local_date ts m).decision ≡ ts
  label_of-decision ts none = refl
  label_of-decision ts (some (y, b)) = refl

  labelled-IsForward :
      (raw : RawSpec) (spec : Spec) (bars : List (OhlcvRow F)) (ts : ℕ)
      → ((ts : ℕ) → 1 ≤ local_date ts)
      → IsDaily local_date bars
      → validate_spec raw ≡ ok spec
      → IsValid spec
      → Fits spec (local_date ts)
      → IsForward raw (labelled local_date bars spec ts)
  unfolding labelled
  labelled-IsForward raw spec bars ts one daily v valid fits =
      label_of-IsForward raw spec ts _ v (after (get_indexer ts bars) refl)
    where
      after :
          (m : Option ℕ)
          → get_indexer ts bars ≡ m
          → (y : List F) (b : OhlcvRow F)
          → elim m [ none ↦ none | some p ↦ label_at local_date bars spec p ] ≡ some (y, b)
          → IsAfter spec (local_date ts) (local_date b.timestamp)
      after none e y b h = absurd cc
      after (some p) e y b h =
          let (now, at, same) = get_indexer-at ts bars p e in
          subst (λ k. IsAfter spec (local_date k) (local_date b.timestamp)) same
            (label_at-IsAfter local_date bars spec p one daily valid at
              (subst (λ k. Fits spec (local_date k)) (sym same) fits) h)

  map-labelled-IsForward :
      (raw : RawSpec) (spec : Spec) (bars : List (OhlcvRow F)) (kept : List ℕ)
      → ((ts : ℕ) → 1 ≤ local_date ts)
      → IsDaily local_date bars
      → validate_spec raw ≡ ok spec
      → IsValid spec
      → All (λ ts. Fits spec (local_date ts)) kept
      → All (IsForward raw) (map (labelled local_date bars spec) kept)
        × (map (λ r. r.decision) (map (labelled local_date bars spec) kept) ≡ kept)
  unfolding labelled
  map-labelled-IsForward raw spec bars [] one daily v valid h = (tt, refl)
  map-labelled-IsForward raw spec bars (ts ∷ kept) one daily v valid (p, h) =
      let (rows, same) = map-labelled-IsForward raw spec bars kept one daily v valid h in
      (
        (labelled-IsForward raw spec bars ts one daily v valid p, rows),
        ap₂ (λ x xs. x ∷ xs) (label_of-decision ts _) same,
      )

  -- Where dates count from one and the sorted bars have increasing dates: for the decisions that the
  -- filter of a specification keeps, the target is built, with one row for each decision in order; a
  -- row without a target date has no labels and is never available; and the target date of any
  -- other row is after the date of its decision, is the date derived for that decision if the
  -- specification derives one, comes with labels, and is one day before they are available.
  pub build_target_lem :
      (raw : RawSpec) (ohlcv : List (OhlcvRow F)) (index : List ℕ) {kept : List ℕ}
      → ((ts : ℕ) → 1 ≤ local_date ts)
      → IsDaily local_date (sort_by is_later ohlcv)
      → decision_filter local_date raw index ≡ ok kept
      → (rows : List (Label F)) × (task : Task) × (build_target local_date raw ohlcv kept
          ≡ ok (rows, task))
        × (map (λ r. r.decision) rows ≡ kept)
        × All (IsForward raw) rows
  unfolding decision_filter build_target
  build_target_lem raw ohlcv index {kept} one daily h = elim (Checked-cases (validate_spec raw)) [
    | inr none_ok ↦ absurd (refused (validate_spec raw) none_ok h)
    | inl (spec, v) ↦
        let bars = sort_by is_later ohlcv in
        let valid = subst Passes v (validate_spec-Passes raw) in
        let fits =
          subst (All (λ ts. Fits spec (local_date ts))) (ok_inj (rw v at h))
            (filtered-Fits local_date spec index) in
        let (rows, same) = map-labelled-IsForward raw spec bars kept one daily v valid fits in
        (map (labelled local_date bars spec) kept, spec_task spec, rw v refl, same, rows)
  ]
    where
      refused :
          (m : Checked Spec)
          → ((a : Spec) → m ≢ ok a)
          → (m >>= λ spec. ok (filtered local_date spec index)) ≡ ok kept
          → ⊥
      refused (ok a) never e = never a refl
      refused (error e) never h = cc
