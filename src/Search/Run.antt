-- ===== src/Search/Run.antt =====
-- `_auto_ensemble_candidates` and `run_search` of modelsearch/search.py.
use automated_stock_trading.Common.{
  ℕ, zero, suc, ◌==◌, ltb, ◌&&◌, not, Bool, true, false, Option, none, some, List, [], ◌∷◌,
  if◌then◌else◌, exists, length, sort_by,
}
use automated_stock_trading.Floats.{Floats, lt_float}
use automated_stock_trading.Search.Space.{Candidate}
use automated_stock_trading.Search.Pareto.{Costed}
use automated_stock_trading.Search.Rows.{
  Task, regression, classification, Evaluation, scored, failed, Result, not_a_number, Attempt, done,
  raised, Tools,
}

infixl 5 ◌>>=◌
abbrev pub ◌>>=◌ : {A B : Type 0} → Attempt A → (A → Attempt B) → Attempt B
done a >>= f = f a
raised e >>= f = raised e

module _ {F : Type 0} ⦃f : Floats F⦄ where
  -- `row.status == OK and np.isfinite(row.score)`, which raises at an OK row without a score; with
  -- what the ranking reads of the row.
  unfoldable pub rankable : Evaluation F → Attempt (Option (Costed F))
  rankable failed = done none
  rankable (scored none metrics held fit predict latency size folds) = raised not_a_number
  rankable (scored (some s) metrics held fit predict latency size folds) = done (
      if f.is_finite s
      then some (record {
        score = s;
        fit_seconds = fit;
        predict_latency_ms = latency;
        model_size_bytes = size;
      })
      else none)

  -- Ranked after: a lower score. Equal scores keep their order.
  abbrev pub ranks_after : ℕ × Costed F → ℕ × Costed F → Bool
  ranks_after (_, a) (_, b) = lt_float a.score b.score

  -- `best_by_key`, in the order of insertion.
  better : F → F → F
  better old new = if lt_float old new then new else old

  keep_best : (key : ℕ) → F → List (ℕ × F) → List (ℕ × F)
  unfolding better
  keep_best key s [] = (key, s) ∷ []
  keep_best key s ((k, b) ∷ m) =
      let rest = keep_best key s m in if k == key then (k, better b s) ∷ m else (k, b) ∷ rest

  abbrev pub scores_below : ℕ × F → ℕ × F → Bool
  scores_below (_, a) (_, b) = lt_float a b

  -- `ranked_keys[:n]`
  pub keys_upto : ℕ → List (ℕ × F) → List ℕ
  keys_upto zero m = []
  keys_upto (suc n) [] = []
  keys_upto (suc n) ((k, b) ∷ m) = k ∷ keys_upto n m

-- What a sweep collects: all rows, and those to rank with their objects.
pub record Swept (V F : Type 0) : Type 0 where
  pub rows : List (Result V F)
  pub ranked : List (ℕ × Costed F)

module _ {V F : Type 0} where
  abbrev pub collect : Result V F → Option (Costed F) → Swept V F → Swept V F
  collect row none s = record { rows = row ∷ s.rows; ranked = s.ranked }
  collect row (some c) s = record { rows = row ∷ s.rows; ranked = (row.id, c) ∷ s.ranked }

module _ {V F : Type 0} ⦃f : Floats F⦄ where
  -- The loop over candidates, whose rows are the objects from `id` on.
  unfoldable pub sweep :
      (evaluate_one : (id : ℕ) → Candidate V → Result V F) (id : ℕ)
      → List (Candidate V)
      → Attempt (Swept V F)
  unfolding rankable
  sweep evaluate_one id [] = done (record { rows = []; ranked = [] })
  sweep evaluate_one id (c ∷ cs) = do
    let row = evaluate_one id c
    costs ← rankable row.evaluation
    rest ← sweep evaluate_one (suc id) cs
    done (collect row costs rest)

  -- The score with which a row counts for the ensemble.
  eligible : Tools V F → Result V F → Option F
  eligible tools row = elim row.evaluation [
    | scored (some s) metrics held fit predict latency size folds ↦
        elim (tools.baseline row.candidate.0) [
          | some false ↦
              if f.is_finite s && not (row.candidate.0 == tools.voting_ensemble)
              then some s
              else none
          | some true ↦ none
          | none ↦ none
        ]
    | _ ↦ none
  ]

  pub best_from : Tools V F → List (ℕ × F) → List (Result V F) → List (ℕ × F)
  unfolding eligible keep_best
  best_from tools best [] = best
  best_from tools best (row ∷ rows) =
      best_from tools
        (elim (eligible tools row) [ none ↦ best | some s ↦ keep_best row.candidate.0 s best ]) rows

  -- The candidate for the best keys, unless they are fewer than two or it was tried.
  unfoldable pub ensemble_of : Tools V F → List ℕ → List (Result V F) → List (Candidate V)
  ensemble_of tools keys rows =
      let c : Candidate V = (tools.voting_ensemble, (tools.estimators, tools.join keys) ∷ []) in
      if ltb (length keys) 2
      then []
      else if exists (λ r. r.params_hash == tools.digest c) rows
      then []
      else c ∷ []

  -- `_auto_ensemble_candidates`
  unfoldable pub auto_ensemble_candidates :
      Tools V F → (top_k : ℕ) → Task → List (Result V F) → List (Candidate V)
  unfolding best_from keys_upto ensemble_of sort_by
  auto_ensemble_candidates tools top_k classification rows = []
  auto_ensemble_candidates tools top_k regression rows =
      let ranked_keys = sort_by scores_below (best_from tools [] rows) in
      if ltb top_k 2 then [] else ensemble_of tools (keys_upto top_k ranked_keys) rows
