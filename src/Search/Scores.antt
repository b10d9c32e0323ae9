-- ===== src/Search/Scores.antt =====
-- When `run_search` of modelsearch/search.py fails on a score: `np.isfinite` of a missing score raises
-- outside of the `try` of a candidate.
use automated_stock_trading.Common.{
  ℕ, zero, suc, ◌≡◌, ◌⊎◌, inl, inr, refl, sym, ap, ◌∙◌, subst, some_inj, Option, none, some, List,
  [], ◌∷◌, get_elem?,
}
use automated_stock_trading.Floats.{Floats}
use automated_stock_trading.Folds.Arguments.{Outcome}
use automated_stock_trading.Folds.Sessions.{Fold}
use automated_stock_trading.Search.Space.{Candidate}
use automated_stock_trading.Search.Pareto.{Costed}
use automated_stock_trading.Search.Evaluate.{evaluate, default_score, scalar_score}
use automated_stock_trading.Search.Run.{rankable, sweep}
use automated_stock_trading.Search.Save.{
  sweep_all, wf_folds, some_candidates, required, or_else, folds_in, or_failure, record_search,
  search_body, run_search,
}
use automated_stock_trading.Search.Rows.{
  ScoreKey, ScoringMode, holdout, walk_forward, no_dataset, ModelSearch, Evaluation, scored, failed,
  Result, Error, not_a_number, Attempt, done, raised, failure, Store, Dataset, Holdout, Tools,
}
use automated_stock_trading.Search.Saving.{Post, Post-bind}
use automated_stock_trading.Search.Outcome.{candidates}

module _ {F : Type 0} ⦃f : Floats F⦄ where
  rankable-cases :
      (e : Evaluation F)
      → (rankable e ≡ raised not_a_number) ⊎ ((c : Option (Costed F)) × (rankable e ≡ done c))
  unfolding rankable
  rankable-cases failed = inr (none, refl)
  rankable-cases (scored none m h a b c d w) = inl refl
  rankable-cases (scored (some s) m h a b c d w) = inr (_, refl)

module _ {V F : Type 0} ⦃f : Floats F⦄ where
  module _ (evaluate_one : (id : ℕ) → Candidate V → Result V F) where
    -- One candidate without a score is enough.
    sweep_raises :
        (id : ℕ) (cs : List (Candidate V)) (i : ℕ) {c : Candidate V}
        → get_elem? cs i ≡ some c
        → ((k : ℕ) → rankable (evaluate_one k c).evaluation ≡ raised not_a_number)
        → sweep evaluate_one id cs ≡ raised not_a_number
    unfolding sweep
    sweep_raises id [] i g h = absurd cc
    sweep_raises id (d ∷ cs) zero {c} g h =
        rw (ap (λ x. rankable (evaluate_one id x).evaluation) (some_inj.0 g) ∙ h id) refl
    sweep_raises id (d ∷ cs) (suc i) g h = elim (rankable-cases (evaluate_one id d).evaluation) [
      | inl e ↦ rw e refl
      | inr (c, e) ↦ rw (e, sweep_raises (suc id) cs i g h) refl
    ]

module _ {V F : Type 0} ⦃f : Floats F⦄ (tools : Tools V F) (search : ModelSearch V) where
  key_of : Dataset F → ScoreKey
  key_of dataset = or_else (default_score dataset.task) search.scoring

  evaluate_holdout :
      (dataset : Dataset F) (run id : ℕ) (c : Candidate V) {h : Holdout F}
      → tools.fit_holdout dataset c ≡ some h
      → (evaluate tools dataset (key_of dataset) none run id c).evaluation
        ≡ scored
            (scalar_score h.metrics (key_of dataset))
            h.metrics
            none
            h.fit_seconds
            h.predict_seconds
            h.predict_latency_ms
            h.model_size_bytes
            none
  unfolding evaluate key_of
  evaluate_holdout dataset run id c e = rw e refl

  some_candidates_at :
      (cs : List (Candidate V)) (i : ℕ) {c : Candidate V}
      → get_elem? cs i ≡ some c
      → some_candidates cs ≡ done cs
  some_candidates_at [] i g = absurd cc
  some_candidates_at (d ∷ cs) i g = refl

  abbrev IsUnscored : Error → Type 0
  IsUnscored e = e ≡ not_a_number

  holdout_only :
      (m : ScoringMode) (o : Outcome (List Fold))
      → m ≡ holdout
      → Post IsUnscored (λ x. x ≡ none) (folds_in m o)
  holdout_only holdout o e = refl
  holdout_only walk_forward o e = absurd cc

  never_done : {A : Type 0} (m : Attempt A) → Post IsUnscored (λ _. ⊥) m → m ≡ raised not_a_number
  never_done (done a) h = absurd h
  never_done (raised e) h = ap raised h

  module _ (s : Store V F) (dataset : Dataset F) (i : ℕ) {c : Candidate V} {h : Holdout F}
      (m : search.scoring_mode ≡ holdout) (e : tools.fit_holdout dataset c ≡ some h)
      (n : scalar_score h.metrics (key_of dataset) ≡ none) where
    one : (id : ℕ) → Candidate V → Result V F
    one = evaluate tools dataset (key_of dataset) none s.run.id

    one_raises : (k : ℕ) → rankable (one k c).evaluation ≡ raised not_a_number
    unfolding one rankable
    one_raises k = rw (evaluate_holdout dataset s.run.id k c e, n) refl

    sweeps-IsUnscored :
        (top_k : ℕ) (cs : List (Candidate V))
        → get_elem? cs i ≡ some c
        → Post IsUnscored (λ _. ⊥) (sweep_all tools top_k dataset one cs)
    unfolding sweep_all
    sweeps-IsUnscored top_k cs g =
        Post-bind IsUnscored (λ _. ⊥) (λ _. ⊥) (sweep one 0 cs) _
          (rw (sweep_raises one 0 cs i g one_raises) refl) λ a h. absurd h

    record_search-IsUnscored :
        (cs : List (Candidate V))
        → get_elem? cs i ≡ some c
        → Post IsUnscored (λ _. ⊥) (record_search tools search s dataset cs)
    unfolding record_search wf_folds one key_of
    record_search-IsUnscored cs g =
        Post-bind IsUnscored (λ o. o ≡ none) (λ _. ⊥) (wf_folds tools search dataset) _
          (holdout_only search.scoring_mode _ m)
          λ folds none_made.
            Post-bind IsUnscored (λ _. ⊥) (λ _. ⊥)
              (sweep_all tools search.auto_ensemble_top_k dataset
                (evaluate tools dataset (or_else (default_score dataset.task) search.scoring) folds
                  s.run.id)
                cs)
              _ (of_none folds none_made) λ a h. absurd h
      where
        of_none :
            (folds : Option (List Fold))
            → folds ≡ none
            → Post IsUnscored
                (λ _. ⊥)
                (sweep_all tools search.auto_ensemble_top_k dataset
                  (evaluate tools dataset
                    (or_else (default_score dataset.task) search.scoring)
                    folds
                    s.run.id)
                  cs)
        of_none none p = sweeps-IsUnscored search.auto_ensemble_top_k cs g
        of_none (some fs) p = absurd (cc)

    search_body-IsUnscored :
        tools.build_dataset ≡ some dataset
        → get_elem? (candidates tools search) i ≡ some c
        → Post IsUnscored (λ _. ⊥) (search_body tools search s)
    unfolding search_body
    search_body-IsUnscored b g =
        Post-bind IsUnscored (λ cs. cs ≡ candidates tools search) (λ _. ⊥)
          (some_candidates (candidates tools search)) _
          (rw (some_candidates_at (candidates tools search) i g) refl)
          λ cs same.
            Post-bind IsUnscored (λ d. d ≡ dataset) (λ _. ⊥)
              (required no_dataset tools.build_dataset) _ (is_required tools.build_dataset b)
              λ d own.
                subst (λ x. Post IsUnscored (λ _. ⊥) (record_search tools search s x cs)) (sym own)
                  (record_search-IsUnscored cs (subst (λ l. get_elem? l i ≡ some c) (sym same) g))
      where
        is_required :
            (o : Option (Dataset F))
            → o ≡ some dataset
            → Post IsUnscored (λ d. d ≡ dataset) (required no_dataset o)
        is_required none p = absurd (cc)
        is_required (some d) p = some_inj.0 p

  -- In holdout mode, where the dataset can be built and a candidate of the expanded space is fitted
  -- but its metrics have no value for the key that ranks, the whole run fails, and no row is saved.
  pub run_search_unscored :
      (s : Store V F) (dataset : Dataset F) (i : ℕ) {c : Candidate V} {h : Holdout F}
      → search.scoring_mode ≡ holdout
      → tools.build_dataset ≡ some dataset
      → get_elem? (candidates tools search) i ≡ some c
      → tools.fit_holdout dataset c ≡ some h
      → scalar_score h.metrics (or_else (default_score dataset.task) search.scoring) ≡ none
      → run_search tools search s
        ≡ record s { run = record s.run { status = failure not_a_number } }
  unfolding run_search or_failure key_of
  run_search_unscored s dataset i m b g e n =
      ap (or_failure s)
        (never_done (search_body tools search s) (search_body-IsUnscored s dataset i m e n b g))
