-- ===== src/Folds/Split.antt =====
-- How a fold divides the rows of a dataset into training and test rows: the masks that
-- backtesting/engine.py and modelsearch/search.py share, over the rows of modeling/dataset.py.
use automated_stock_trading.Common.{
  ℕ, min, Bool, false, Option, none, some, List, [], ◌∷◌, ◌&&◌, leb, ltb, if◌then◌else◌, select,
  length,
}
use automated_stock_trading.Folds.Sessions.{Fold}

-- What a row of a `Dataset` is read for, apart from its features: when it is decided, its local
-- session date, when its label is known (NaT is `none`), the label's date, the label, and the
-- close at the decision. A `multistep` label is a list of closes.
pub record DataRow (F : Type 0) : Type 0 where
  pub index : ℕ
  pub decision_date : ℕ
  pub available_at : Option ℕ
  pub target_date : ℕ
  pub label : List F
  pub anchor : F
  pub instrument : ℕ

abbrev pub min_train_rows : ℕ
min_train_rows = 10

-- `avail <= before`, which is false of NaT.
abbrev pub is_known_by : (before : ℕ) → Option ℕ → Bool
is_known_by before none = false
is_known_by before (some t) = leb t before

module _ {F : Type 0} where
  abbrev pub is_within : (lo hi : ℕ) → DataRow F → Bool
  is_within lo hi r = leb lo r.decision_date && leb r.decision_date hi

  -- `index[test_mask].min()`, of `r` and the rows after it.
  unfoldable pub first_decision : ℕ → List (DataRow F) → ℕ
  first_decision t [] = t
  first_decision t (r ∷ rs) = first_decision (min t r.index) rs

  abbrev pub trains : Fold → (before : ℕ) → DataRow F → Bool
  trains f before r = is_within f.train_start f.train_end r && is_known_by before r.available_at

  -- The rows to train on and to test, or `none` where the loop continues.
  unfoldable pub split_with :
      Fold
      → List (DataRow F)
      → (test : List (DataRow F)) → Option (List (DataRow F) × List (DataRow F))
  unfolding first_decision
  split_with f rows [] = none
  split_with f rows (r ∷ rs) =
      let train = select (trains f (first_decision r.index rs)) rows in
      if ltb (length train) min_train_rows then none else some (train, r ∷ rs)

  unfoldable pub fold_split : Fold → List (DataRow F) → Option (List (DataRow F) × List (DataRow F))
  unfolding split_with
  fold_split f rows = split_with f rows (select (is_within f.test_start f.test_end) rows)
