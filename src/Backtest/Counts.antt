-- ===== src/Backtest/Counts.antt =====
-- How the scorers of backtesting/engine.py count their folds; and lemmas on what may be an exception.
use mathlib.Core.List.{append_assoc, append-nil}
use automated_stock_trading.Common.{
  ℕ, ◌≡◌, inl, inr, sym, subst, Bool, Bool-cases, Option, none, some, List, [], ◌∷◌, ◌++◌, exists,
  length, length-append, arith,
}
use automated_stock_trading.Floats.{Floats}
use automated_stock_trading.Folds.Sessions.{Fold}
use automated_stock_trading.Folds.Split.{DataRow, fold_split}
use automated_stock_trading.Backtest.Positions.{Position}
use automated_stock_trading.Backtest.Rows.{
  FitMode, walk_forward, frozen_artifact, Backtest, Dataset, Tools, Sink,
}
use automated_stock_trading.Backtest.Scoring.{
  Scored, beside, record_predictions, add_fold, score_fold, score_folds, made_folds,
  score_walk_forward, ◌>>=◌, ◌>>◌,
}
use automated_stock_trading.Backtest.Frozen.{
  artifact_path, oos_after, check_payload, rows_after, score_rows, score_frozen,
}
use automated_stock_trading.Backtest.Engine.{bulk_create, scorer}

-- What holds of the value, where there is one.
abbrev pub Returns : {A : Type 0} → (A → Type 0) → Option A → Type 0
Returns P none = Unit
Returns P (some a) = P a

pub Returns-bind :
    {A B : Type 0} (P : A → Type 0) (Q : B → Type 0) (m : Option A) (k : A → Option B)
    → Returns P m
    → ((a : A) → P a → Returns Q (k a))
    → Returns Q (m >>= k)
Returns-bind P Q none k h g = tt
Returns-bind P Q (some a) k h g = g a h

pub Returns-true : {A : Type 0} (m : Option A) → Returns (λ a. Unit {0}) m
Returns-true none = tt
Returns-true (some a) = tt

pub Returns-then :
    {A B : Type 0} (Q : B → Type 0) (m : Option A) (k : Option B) → Returns Q k → Returns Q (m >> k)
Returns-then Q none k h = tt
Returns-then Q (some a) k h = h

pub bulk_create-Returns :
    {A : Type 0} (clash : A → A → Bool) (table rows : List A)
    → Returns (λ t. t ≡ table ++ rows) (bulk_create clash table rows)
unfolding bulk_create
bulk_create-Returns clash table [] = sym (append-nil table)
bulk_create-Returns clash table (r ∷ rows) = elim (Bool-cases (exists (clash r) table)) [
  | inl e ↦ rw e tt
  | inr e ↦ rw e (
      subst (λ l. Returns (λ t. t ≡ l) (bulk_create clash (table ++ r ∷ []) rows))
        (append_assoc table (r ∷ []) rows) (bulk_create-Returns clash (table ++ r ∷ []) rows))
]

module _ {F : Type 0} ⦃f : Floats F⦄ where
  -- The count of folds is that of the rows for them.
  abbrev pub IsCounted : Sink F → Type 0
  IsCounted sink = sink.used_folds ≡ length sink.fold_rows

  record_predictions-IsCounted :
      (tools : Tools F) (is_clf : Bool) (run k : ℕ) (xs : List (Scored F)) (ps : List Position)
      (sink : Sink F)
      → IsCounted sink
      → IsCounted (record_predictions tools is_clf run k xs ps sink)
  unfolding record_predictions
  record_predictions-IsCounted tools is_clf run k [] ps sink h = h
  record_predictions-IsCounted tools is_clf run k (x ∷ xs) [] sink h = h
  record_predictions-IsCounted tools is_clf run k (x ∷ xs) (p ∷ ps) sink h =
      record_predictions-IsCounted tools is_clf run k xs ps _ h

  add_fold-IsCounted :
      (tools : Tools F) (bt : Backtest F) (ds : Dataset F) (run : ℕ) (fold : Fold) (n : ℕ)
      (xs : List (Scored F)) (sink : Sink F)
      → IsCounted sink
      → IsCounted (add_fold tools bt ds run fold n xs sink)
  unfolding add_fold
  add_fold-IsCounted tools bt ds run fold n xs sink h =
      record_predictions-IsCounted tools ds.is_clf run fold.index xs _ _
        (omega (arith, length-append {0} sink.fold_rows))

  score_fold-IsCounted :
      (tools : Tools F) (bt : Backtest F) (ds : Dataset F) (run : ℕ) (fold : Fold)
      (o : Option (List (DataRow F) × List (DataRow F))) (sink : Sink F)
      → IsCounted sink
      → Returns IsCounted (score_fold tools bt ds run fold o sink)
  unfolding score_fold
  score_fold-IsCounted tools bt ds run fold none sink h = h
  score_fold-IsCounted tools bt ds run fold (some (train, test)) sink h =
      Returns-bind (λ _. Unit) IsCounted (tools.fit_predict ds train test) _ (Returns-true _)
        λ raw _.
          Returns-bind (λ _. Unit) IsCounted (beside test raw) _ (Returns-true _)
            λ xs _. add_fold-IsCounted tools bt ds run fold (length train) xs sink h

  score_folds-IsCounted :
      (tools : Tools F) (bt : Backtest F) (ds : Dataset F) (run : ℕ) (folds : List Fold)
      (sink : Sink F)
      → IsCounted sink
      → Returns IsCounted (score_folds tools bt ds run folds sink)
  unfolding score_folds
  score_folds-IsCounted tools bt ds run [] sink h = h
  score_folds-IsCounted tools bt ds run (fold ∷ folds) sink h =
      Returns-bind IsCounted IsCounted
        (score_fold tools bt ds run fold (fold_split fold ds.rows) sink) _
        (score_fold-IsCounted tools bt ds run fold (fold_split fold ds.rows) sink h)
        λ next k. score_folds-IsCounted tools bt ds run folds next k

  pub scorer-IsCounted :
      (mode : FitMode) (tools : Tools F) (bt : Backtest F) (ds : Dataset F) (run : ℕ)
      (sink : Sink F)
      → IsCounted sink
      → Returns IsCounted (scorer mode tools bt ds run sink)
  unfolding scorer score_walk_forward score_frozen score_rows
  scorer-IsCounted walk_forward tools bt ds run sink h =
      Returns-bind (λ _. Unit) IsCounted (made_folds _) _ (Returns-true _)
        λ folds _. score_folds-IsCounted tools bt ds run folds sink h
  scorer-IsCounted frozen_artifact tools bt ds run sink h =
      Returns-bind (λ _. Unit) IsCounted (artifact_path bt) _ (Returns-true _)
        λ path _.
          Returns-bind (λ _. Unit) IsCounted (tools.load path) _ (Returns-true _)
            λ payload _. Returns-then IsCounted (check_payload bt ds payload) _ (
              Returns-bind (λ _. Unit) IsCounted (rows_after (oos_after bt payload) ds.rows) _
                (Returns-true _)
                λ test _.
                  Returns-bind (λ _. Unit) IsCounted (payload.predict test) _ (Returns-true _)
                    λ raw _.
                      Returns-bind (λ _. Unit) IsCounted (beside test raw) _ (Returns-true _)
                        λ xs _. add_fold-IsCounted tools bt ds run _ 0 xs sink h)
