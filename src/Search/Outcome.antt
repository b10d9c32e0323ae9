-- ===== src/Search/Outcome.antt =====
-- What a whole `run_search` of modelsearch/search.py leaves behind.
use mathlib.Core.List.{Nodup}
use automated_stock_trading.Common.{
  ℕ, ◌+◌, ◌≤◌, ◌≡◌, ◌≢◌, ◌⊎◌, inl, inr, refl, sym, subst, Bool, false, ◌==◌, Option, none, some,
  List, [], ◌∷◌, ◌++◌, map, length, All, select, arith,
}
use automated_stock_trading.Floats.{Floats}
use automated_stock_trading.Folds.Sessions.{Fold}
use automated_stock_trading.Folds.Arguments
use automated_stock_trading.Search.Space.{Candidate, expand}
use automated_stock_trading.Search.Expansion.{Samples, expand_lem}
use automated_stock_trading.Search.Evaluate.{evaluate, default_score}
use automated_stock_trading.Search.Run.{◌>>=◌}
use automated_stock_trading.Search.Save.{
  is_ok, sweep_all, ranked_rows, bulk_create, finish, wf_folds, some_candidates, required, or_else,
  some_folds, folds_in, or_failure, record_search, search_body, run_search,
}
use automated_stock_trading.Search.Saving.{Post, Post-bind, IsOther}
use automated_stock_trading.Search.Record.{
  IsSwept, sweep_all-IsSwept, ranked_rows-IsSwept, bulk_create-ranked,
}
use automated_stock_trading.Search.Rows.{
  ScoreKey, ScoringMode, holdout, walk_forward, ModelSearch, Result, Error, no_dataset,
  duplicate_candidate, Attempt, done, raised, success, failure, Store, Dataset, Tools,
}

length-select {ℓ} : {A : Type ℓ} (p : A → Bool) (xs : List A) → length (select p xs) ≤ length xs
length-select p [] = omega arith
length-select p (x ∷ xs) = ground (arith, length-select p xs)

module _ {V F : Type 0} ⦃f : Floats F⦄ (tools : Tools V F) (search : ModelSearch V) where
  abbrev pub candidates : List (Candidate V)
  candidates =
      expand tools.digest tools.sample search.search_space search.mode search.max_candidates

  evaluate_own :
      (dataset : Dataset F) (key : _) (folds : _) (run id : ℕ) (c : Candidate V)
      → ((evaluate tools dataset key folds run id c).candidate ≡ c)
        × ((evaluate tools dataset key folds run id c).params_hash ≡ tools.digest c)
        × ((evaluate tools dataset key folds run id c).run ≡ run)
  unfolding evaluate
  evaluate_own dataset key folds run id c = (refl, refl, refl)

  -- The run has succeeded and has recorded the candidates.
  abbrev pub Succeeds : (before after : Store V F) → Type 0
  Succeeds s s' =
      (rows : List (Result V F)) × (extra : List (Candidate V)) × (s'.run.status ≡ success)
      × (s'.results ≡ s.results ++ rows)
      × (map (λ r. r.candidate) rows ≡ candidates ++ extra)
      × (length extra ≤ 1)
      × (s'.run.candidates_total ≡ length rows)
      × (s'.run.candidates_ok + s'.run.candidates_failed ≡ s'.run.candidates_total)
      × Nodup (map (λ r. r.params_hash) rows)

  -- The run has failed, and nothing but its status is written.
  abbrev pub Fails : (before after : Store V F) → Type 0
  Fails s s' =
      (e : Error) × (e ≢ duplicate_candidate)
      × (s' ≡ record s { run = record s.run { status = failure e } })

  some_candidates-Post : (cs : List (Candidate V)) → Post IsOther (λ c. c ≡ cs) (some_candidates cs)
  some_candidates-Post [] = λ e. cc
  some_candidates-Post (c ∷ cs) = refl

  required-Post : (o : Option (Dataset F)) → Post IsOther (λ _. Unit {0}) (required no_dataset o)
  required-Post none = λ e. cc
  required-Post (some d) = tt

  some_folds-Post :
      (o : Arguments.Outcome (List Fold)) → Post IsOther (λ _. Unit {0}) (some_folds o)
  some_folds-Post (Arguments.Outcome.raised e) = λ e. cc
  some_folds-Post (Arguments.Outcome.ok []) = λ e. cc
  some_folds-Post (Arguments.Outcome.ok (x ∷ xs)) = tt

  folds_in-Post :
      (m : ScoringMode) (o : Arguments.Outcome (List Fold))
      → Post IsOther (λ _. Unit {0}) (folds_in m o)
  folds_in-Post holdout o = tt
  folds_in-Post walk_forward o = some_folds-Post o

  finish-Succeeds :
      (dataset : Dataset F) (s : Store V F) (rows : List (Result V F))
      → Nodup (map tools.digest candidates)
      → IsSwept tools s.run.id candidates rows
      → Succeeds s (finish dataset rows (s.results ++ rows) s)
  unfolding finish
  finish-Succeeds dataset s rows n (extra, le, (a, b, c), more) = (
    rows,
    extra,
    refl,
    refl,
    a,
    le,
    refl,
    omega (arith, length-select {0} is_ok rows),
    subst Nodup (sym b) (more n),
  )

  search_body-Post :
      (s : Store V F)
      → All (λ t. (t.run == s.run.id) ≡ false) s.results
      → Nodup (map tools.digest candidates)
      → Post IsOther (Succeeds s) (search_body tools search s)
  unfolding search_body record_search wf_folds
  search_body-Post s h n =
      Post-bind IsOther (λ cs. cs ≡ candidates) (Succeeds s) (some_candidates candidates) _
        (some_candidates-Post candidates)
        λ cs same.
          Post-bind IsOther (λ _. Unit {0}) (Succeeds s) (required no_dataset tools.build_dataset) _
            (required-Post tools.build_dataset)
            λ dataset _.
              Post-bind IsOther (λ _. Unit {0}) (Succeeds s) (wf_folds tools search dataset) _
                (folds_in-Post search.scoring_mode _) λ folds _. swept dataset cs folds same
    where
      key : Dataset F → ScoreKey
      key dataset = or_else (default_score dataset.task) search.scoring

      saved :
          (dataset : Dataset F) (rows : List (Result V F))
          → IsSwept tools s.run.id candidates rows
          → Post IsOther
              (Succeeds s)
              (bulk_create s.results rows >>= λ table. done (finish dataset rows table s))
      saved dataset rows sw =
          rw (bulk_create-ranked tools s.run.id s.results candidates rows h n sw)
            (finish-Succeeds dataset s rows n sw)

      swept :
          (dataset : Dataset F) (cs : List (Candidate V)) (folds : Option (List Fold))
          → cs ≡ candidates
          → Post IsOther (Succeeds s) (
              sweep_all tools search.auto_ensemble_top_k dataset
                (evaluate tools dataset (key dataset) folds s.run.id)
                cs
              >>= λ sw. bulk_create s.results (ranked_rows sw) >>= λ table.
                  done (finish dataset (ranked_rows sw) table s))
      swept dataset cs folds same =
          let one = evaluate tools dataset (key dataset) folds s.run.id in
          Post-bind IsOther (λ sw. IsSwept tools s.run.id candidates sw.rows) (Succeeds s)
            (sweep_all tools search.auto_ensemble_top_k dataset one cs) _
            (subst
              (λ l.
                Post IsOther (λ sw. IsSwept tools s.run.id l sw.rows)
                  (sweep_all tools search.auto_ensemble_top_k dataset one cs))
              same
              (sweep_all-IsSwept tools s.run.id one
                (evaluate_own dataset (key dataset) folds s.run.id) search.auto_ensemble_top_k
                dataset cs))
            λ sw is_swept.
              saved dataset (ranked_rows sw)
                (ranked_rows-IsSwept tools s.run.id candidates sw is_swept)

  -- Where a random sample is a choice without replacement of as many elements as it is asked for and
  -- the table has no row of this run yet: either the run succeeds and adds to the table one row for
  -- each candidate of the expanded space, in its order, and at most one for an ensemble, no two of
  -- them with one digest, and the counts of the run are the rows, with those that are ok and those
  -- that failed adding up to them; or the run fails and nothing but its status is written, and then
  -- not by the uniqueness of its candidates.
  pub run_search_lem :
      (s : Store V F)
      → Samples tools.sample
      → All (λ t. (t.run == s.run.id) ≡ false) s.results
      → Succeeds s (run_search tools search s) ⊎ Fails s (run_search tools search s)
  unfolding run_search or_failure
  run_search_lem s law h = go (search_body tools search s) (
      search_body-Post s h
        (expand_lem tools.digest tools.sample law search.search_space search.mode
          search.max_candidates).1)
    where
      go :
          (m : Attempt (Store V F))
          → Post IsOther (Succeeds s) m
          → Succeeds s (or_failure s m) ⊎ Fails s (or_failure s m)
      go (done s') p = inl p
      go (raised e) p = inr (e, p, refl)
