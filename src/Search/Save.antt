-- ===== src/Search/Save.antt =====
-- `run_search` of modelsearch/search.py from the ranking on, and as a whole. Writing to a row object
-- writes to the row with its `id` among the rows to save.
use automated_stock_trading.Common.{
  ℕ, suc, ◌-◌, ◌==◌, ◌&&◌, Bool, true, false, Option, none, some, List, [], ◌∷◌, ◌++◌, map,
  if◌then◌else◌, first, exists, length, select, sort_by,
}
use automated_stock_trading.Floats.{Floats}
use automated_stock_trading.Folds.Arguments.{Outcome, nonneg}
use automated_stock_trading.Folds.Sessions.{Fold, generate_folds}
use automated_stock_trading.Search.Space.{Candidate, expand}
use automated_stock_trading.Search.Pareto.{Costed, pareto_flags}
use automated_stock_trading.Search.Evaluate.{default_score, evaluate}
use automated_stock_trading.Search.Run.{Swept, ranks_after, sweep, auto_ensemble_candidates, ◌>>=◌}
use automated_stock_trading.Search.Rows.{
  ScoringMode, holdout, walk_forward, ModelSearch, failed, Result, Error, no_candidates, no_dataset,
  no_folds, duplicate_candidate, Attempt, done, raised, success, failure, Store, Dataset, Tools,
}

abbrev pub is_rank : (k : ℕ) → Option ℕ → Bool
is_rank k none = false
is_rank k (some n) = n == k

module _ {V F : Type 0} where
  -- `row.rank = i` for the object `id`.
  abbrev pub set_rank : (id i : ℕ) → Result V F → Result V F
  set_rank id i r = if r.id == id then record r { rank = some i } else r

  unfoldable pub rank_rows : List (ℕ × Costed F) → (i : ℕ) → List (Result V F) → List (Result V F)
  rank_rows [] i rows = rows
  rank_rows ((id, c) ∷ ranked) i rows = rank_rows ranked (suc i) (map (set_rank id i) rows)

  -- `row.is_pareto = flag`
  abbrev pub set_flag : (id : ℕ) → Bool → Result V F → Result V F
  set_flag id b r = if r.id == id then record r { is_pareto = b } else r

  -- `zip` stops at the shorter list.
  unfoldable pub flag_rows : List (ℕ × Costed F) → List Bool → List (Result V F) → List (Result V F)
  flag_rows [] flags rows = rows
  flag_rows (x ∷ ranked) [] rows = rows
  flag_rows ((id, c) ∷ ranked) (b ∷ flags) rows = flag_rows ranked flags (map (set_flag id b) rows)

  -- `bulk_create` under the constraint `unique_candidate_per_run`.
  abbrev pub is_same_candidate : Result V F → Result V F → Bool
  is_same_candidate a b = a.run == b.run && a.params_hash == b.params_hash

  unfoldable pub bulk_create : List (Result V F) → List (Result V F) → Attempt (List (Result V F))
  bulk_create table [] = done table
  bulk_create table (r ∷ rows) =
      let rest = bulk_create (table ++ r ∷ []) rows in
      if exists (is_same_candidate r) table then raised duplicate_candidate else rest

  abbrev pub is_ok : Result V F → Bool
  is_ok r = elim r.evaluation [ failed ↦ false | _ ↦ true ]

  -- `filter(run=run, rank=1).first()`
  abbrev pub is_best : (run : ℕ) → Result V F → Bool
  is_best run r = r.run == run && is_rank 1 r.rank

  -- A new best, where there is one.
  new_best : Option ℕ → Option (Result V F) → Option ℕ
  new_best old none = old
  new_best old (some r) = some r.id

  -- What is saved after the rows.
  unfoldable pub finish : Dataset F → (rows table : List (Result V F)) → Store V F → Store V F
  unfolding new_best
  finish dataset rows table s =
      let good = length (select is_ok rows) in
      record {
        results = table;
        run = record s.run {
          status = success;
          candidates_total = length rows;
          candidates_ok = good;
          candidates_failed = length rows - good;
          dataset_rows = length dataset.rows;
          feature_count = dataset.feature_count;
        };
        best_result = new_best s.best_result (first (is_best s.run.id) table);
      }

  -- The `except`.
  unfoldable pub or_failure : Store V F → Attempt (Store V F) → Store V F
  or_failure s (done s') = s'
  or_failure s (raised e) = record s { run = record s.run { status = failure e } }

abbrev pub required : {A : Type 0} → Error → Option A → Attempt A
required e none = raised e
required e (some a) = done a

-- `search.scoring or DEFAULT_SCORE[task]`
abbrev pub or_else : {A : Type 0} → A → Option A → A
or_else a none = a
or_else a (some b) = b

-- The folds of a search, where it scores by them.
abbrev pub some_folds : Outcome (List Fold) → Attempt (Option (List Fold))
some_folds (Outcome.raised e) = raised no_folds
some_folds (Outcome.ok []) = raised no_folds
some_folds (Outcome.ok (f ∷ fs)) = done (some (f ∷ fs))

abbrev pub folds_in : ScoringMode → Outcome (List Fold) → Attempt (Option (List Fold))
folds_in holdout o = done none
folds_in walk_forward o = some_folds o

abbrev pub some_candidates : {V : Type 0} → List (Candidate V) → Attempt (List (Candidate V))
some_candidates [] = raised no_candidates
some_candidates (c ∷ cs) = done (c ∷ cs)

module _ {V F : Type 0} ⦃f : Floats F⦄ where
  unfoldable pub wf_folds : Tools V F → ModelSearch V → Dataset F → Attempt (Option (List Fold))
  wf_folds tools search dataset = folds_in search.scoring_mode (
      generate_folds (tools.sessions dataset.rows) search.wf_scheme (nonneg search.wf_train_span)
        (nonneg search.wf_test_span) (nonneg search.wf_step) (nonneg search.wf_gap))

  -- Both sweeps.
  unfoldable pub sweep_all :
      Tools V F
      → (top_k : ℕ) → Dataset F
      → (evaluate_one : (id : ℕ) → Candidate V → Result V F) → List (Candidate V)
      → Attempt (Swept V F)
  unfolding sweep auto_ensemble_candidates
  sweep_all tools top_k dataset evaluate_one cs = do
    a ← sweep evaluate_one 0 cs
    b ←
        sweep evaluate_one (length a.rows)
          (auto_ensemble_candidates tools top_k dataset.task a.rows)
    done (record { rows = a.rows ++ b.rows; ranked = a.ranked ++ b.ranked })

  -- The rows with their ranks and flags.
  unfoldable pub ranked_rows : Swept V F → List (Result V F)
  unfolding rank_rows flag_rows pareto_flags sort_by
  ranked_rows swept =
      let ranked = sort_by ranks_after swept.ranked in
      flag_rows ranked (pareto_flags (map (λ x. x.1) ranked)) (rank_rows ranked 1 swept.rows)

  -- The `try` of `run_search`, once there are candidates and a dataset.
  unfoldable pub record_search :
      Tools V F → ModelSearch V → Store V F → Dataset F → List (Candidate V) → Attempt (Store V F)
  unfolding wf_folds sweep_all ranked_rows bulk_create finish evaluate
  record_search tools search s dataset cs = do
    folds ← wf_folds tools search dataset
    swept ←
        sweep_all tools search.auto_ensemble_top_k dataset
          (evaluate tools dataset (or_else (default_score dataset.task) search.scoring) folds
            s.run.id)
          cs
    table ← bulk_create s.results (ranked_rows swept)
    done (finish dataset (ranked_rows swept) table s)

  -- The whole `try`.
  unfoldable pub search_body : Tools V F → ModelSearch V → Store V F → Attempt (Store V F)
  unfolding record_search expand
  search_body tools search s = do
    cs ←
        some_candidates
          (expand tools.digest tools.sample search.search_space search.mode search.max_candidates)
    dataset ← required no_dataset tools.build_dataset
    record_search tools search s dataset cs

  -- `run_search`
  unfoldable pub run_search : Tools V F → ModelSearch V → Store V F → Store V F
  unfolding search_body or_failure
  run_search tools search s = or_failure s (search_body tools search s)
