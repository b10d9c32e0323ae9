-- ===== src/Modeling/Labels.antt =====
-- The rows that `build_target` of modeling/targets.py makes. The closes are numbers and the
-- timestamps of the bars are all different; so a decision has labels just where it has a target
-- date, and the rows of a frame are found by their timestamps.
use automated_stock_trading.Common.{
  ℕ, zero, suc, ◌+◌, ◌/◌, ◌==◌, Bool, Option, none, some, List, [], ◌∷◌, if◌then◌else◌, ltb, ◌&&◌,
  get_elem?,
}
use automated_stock_trading.Floats.{Floats, float, lt_float, ◌⊖◌, ◌⊘◌}
use automated_stock_trading.Feed.Dates.{weekday}
use automated_stock_trading.Search.Evaluate.{◌>>=◌}
use automated_stock_trading.Modeling.Targets.{
  Ahead, horizon_close, horizon_return, direction, Spec, ahead_by, anchored, steps_of,
}

-- A row of `ohlcv`.
pub record OhlcvRow (F : Type 0) : Type 0 where
  pub timestamp : ℕ
  pub close : F

-- A row of the result; `available_on` is the date at whose midnight the label is known.
pub record Label (F : Type 0) : Type 0 where
  pub decision : ℕ
  pub y : Option (List F)
  pub target_date : Option ℕ
  pub available_on : Option ℕ

-- A week of ISO 8601, by its number: weeks begin on Mondays, as date 1 is.
abbrev pub week_key : ℕ → ℕ
week_key day = (day + 6) / 7

module _ {F : Type 0} where
  abbrev pub is_later : OhlcvRow F → OhlcvRow F → Bool
  is_later a b = ltb b.timestamp a.timestamp

  -- The place that `get_indexer` finds and `reindex` reads.
  unfoldable pub get_indexer : ℕ → List (OhlcvRow F) → Option ℕ
  get_indexer ts [] = none
  get_indexer ts (b ∷ bs) =
      let rest = get_indexer ts bs in
      if b.timestamp == ts then some 0 else elim rest [ none ↦ none | some p ↦ some (suc p) ]

  -- What a dict filled in the order of the bars holds at last.
  unfoldable pub exit_row : (OhlcvRow F → Bool) → List (OhlcvRow F) → Option (OhlcvRow F)
  exit_row q [] = none
  exit_row q (b ∷ bs) =
      let rest = exit_row q bs in
      elim rest [ none ↦ if q b then some b else none | some r ↦ some r ]

  -- The closes of the `n` bars after place `p`, if there are as many.
  unfoldable pub closes_after : List (OhlcvRow F) → (p n : ℕ) → Option (List F)
  closes_after bars p zero = some []
  closes_after bars p (suc n) = do
    b ← get_elem? bars (suc p)
    rest ← closes_after bars (suc p) n
    some (b.close ∷ rest)

module _ {F : Type 0} ⦃f : Floats F⦄ where
  -- The label from the close of the decision and the one to come.
  unfoldable pub ahead_label : Ahead → (now future : F) → F
  ahead_label horizon_close now future = future
  ahead_label horizon_return now future = future ⊘ now ⊖ float 1
  ahead_label direction now future = if lt_float now future then float 1 else float 0

module _ {F : Type 0} ⦃f : Floats F⦄ (local_date : ℕ → ℕ) where
  abbrev pub is_exit : (exit week : ℕ) → OhlcvRow F → Bool
  is_exit exit week b =
      weekday (local_date b.timestamp) == exit && week_key (local_date b.timestamp) == week

  -- The labels of the decision at place `p`, and the bar whose date is their target date.
  unfoldable pub label_at : List (OhlcvRow F) → Spec → ℕ → Option (List F × OhlcvRow F)
  unfolding ahead_label closes_after exit_row
  label_at bars (ahead_by t h) p = do
    now ← get_elem? bars p
    future ← get_elem? bars (p + h)
    some (ahead_label t now.close future.close ∷ [], future)
  label_at bars (steps_of n) p = do
    closes ← closes_after bars p n
    last ← get_elem? bars (p + n)
    some (closes, last)
  label_at bars (anchored entry exit) p = do
    now ← get_elem? bars p
    b ← exit_row (is_exit exit (week_key (local_date now.timestamp))) bars
    some (b.close ∷ [], b)

  -- With the date and `_avail_series`.
  abbrev pub label_of : (decision : ℕ) → Option (List F × OhlcvRow F) → Label F
  label_of ts none = record { decision = ts; y = none; target_date = none; available_on = none }
  label_of ts (some (y, b)) = record {
    decision = ts;
    y = some y;
    target_date = some (local_date b.timestamp);
    available_on = some (local_date b.timestamp + 1);
  }

  unfoldable pub labelled : List (OhlcvRow F) → Spec → ℕ → Label F
  unfolding get_indexer label_at
  labelled bars spec ts =
      label_of ts (elim (get_indexer ts bars) [ none ↦ none | some p ↦ label_at bars spec p ])
