-- ===== src/Search/Tests.antt =====
-- Runs of a model search, with whole numbers for floats and for the values of parameters.
use mathlib.Core.List.{Perm}
use mathlib.Core.List.Perm
use automated_stock_trading.Common.{
  ℕ, ◌+◌, ◌-◌, ◌*◌, ◌/◌, ◌≡◌, ◌⊎◌, ◌==◌, refl, sym, subst, if◌then◌else◌, true, false, none, some,
  Option, List, [], ◌∷◌, ltb, leb, length, get_elem?, arith,
}
use automated_stock_trading.Floats.{Floats}
use automated_stock_trading.Folds.Arguments.{Scheme}
use automated_stock_trading.Search.Space.{
  Candidate, Space, listed, grid, random, raw_from, take, expand,
}
use automated_stock_trading.Search.Expansion.{
  Samples, Expands, drop, take-drop, length-take, expand_lem,
}
use automated_stock_trading.Search.Pareto.{Costed, Comparable, dominates, pareto_flags}
use automated_stock_trading.Search.Frontier.{pareto_flags_lem}
use automated_stock_trading.Search.Rows.{
  mae, r2, Metric, plain, regression, holdout, ModelSearch, Dataset, Store, running, failure,
  not_a_number, Tools,
}
use automated_stock_trading.Search.Run.{Swept}
use automated_stock_trading.Search.Evaluate.{evaluate, scalar_score}
use automated_stock_trading.Search.Save.{sweep_all, ranked_rows, run_search}
use automated_stock_trading.Search.Outcome.{Succeeds, Fails, run_search_lem}
use automated_stock_trading.Search.Scores.{run_search_unscored}
use automated_stock_trading.Search.Ranking.{FiniteOrder}
use automated_stock_trading.Search.Ranks.{IsRanking, ranked_rows_lem}

instance whole : Floats ℕ
whole = record {
  of_int = λ n. n;
  add = λ a b. a + b;
  sub = λ a b. a - b;
  mul = λ a b. a * b;
  div = λ a b. a / b;
  neg = λ a. 0 - a;
  lt = λ a b. ltb a b;
  le = λ a b. leb a b;
  is_finite = λ a. true;
  int_floor_div = λ a b. if b == 0 then none else some (a / b);
}

whole-Comparable : Comparable ℕ
unfolding whole
whole-Comparable = record {
  irreflexive = λ a. ground arith;
  transitive = λ a b c h k. ground arith;
  lt_le = λ a b c h k. ground arith;
  le_lt = λ a b c h k. ground arith;
}

abbrev fast : Costed ℕ
fast = record { score = 5; fit_seconds = 1; predict_latency_ms = 2; model_size_bytes = 100 }

abbrev slow : Costed ℕ
slow = record { score = 4; fit_seconds = 3; predict_latency_ms = 2; model_size_bytes = 100 }

pareto_flags_lem_example :
    (k : ℕ) × (b : Costed ℕ) × (get_elem? (fast ∷ slow ∷ []) k ≡ some b)
    × (get_elem? (pareto_flags (fast ∷ slow ∷ [])) k ≡ some true)
    × (dominates b slow ≡ true)
unfolding whole pareto_flags
pareto_flags_lem_example =
    (pareto_flags_lem {F = ℕ} whole-Comparable (fast ∷ slow ∷ [])).2 1 slow refl refl

abbrev digest : Candidate ℕ → ℕ
digest (k, []) = k
digest (k, (n, v) ∷ ps) = k * 1000 + n * 100 + v

abbrev sample : List (Candidate ℕ) → ℕ → List (Candidate ℕ)
sample xs n = take n xs

sample-Samples : Samples sample
sample-Samples = record {
  left = λ xs n. drop n xs;
  chosen = λ xs n h. subst (λ l. Perm l xs) (sym (take-drop n xs)) Perm.rfl;
  size = λ xs n h. length-take n xs h;
}

abbrev space : Space ℕ
space = record {
  estimators = 1 ∷ 2 ∷ 1 ∷ [];
  param_grids = (2, (7, listed (3 ∷ 4 ∷ [])) ∷ []) ∷ [];
}

expand_lem_example :
    Expands digest
      (raw_from space.param_grids space.estimators)
      2
      (expand digest sample space random 2)
expand_lem_example = expand_lem digest sample sample-Samples space random 2

abbrev dataset : Dataset ℕ
dataset = record { rows = []; task = regression; multioutput = false; feature_count = 3 }

-- Errors are known, and nothing else.
abbrev fitted : Metric → Option ℕ
fitted m = elim m [ mae ↦ some 2 | r2 ↦ some 1 | _ ↦ none ]

abbrev tools : Tools ℕ ℕ
tools = record {
  digest = digest;
  sample = sample;
  build_dataset = some dataset;
  fit_holdout = λ d c.
      if c.0 == 1
      then some (record {
        metrics = fitted;
        fit_seconds = 1;
        predict_seconds = 1;
        predict_latency_ms = 1;
        model_size_bytes = 10;
      })
      else none;
  fit_predict = λ d c train test. none;
  pooled_metrics = λ t p m. none;
  sessions = λ rows. [];
  baseline = λ k. some false;
  voting_ensemble = 9;
  estimators = 8;
  join = λ ks. length ks;
}

abbrev scored_by : Metric → ModelSearch ℕ
scored_by m = record {
  search_space = space;
  mode = grid;
  max_candidates = 5;
  auto_ensemble_top_k = 3;
  scoring = some (plain m);
  scoring_mode = holdout;
  wf_scheme = Scheme.expanding;
  wf_train_span = 250;
  wf_test_span = 21;
  wf_step = 21;
  wf_gap = 1;
}

abbrev blank : Store ℕ ℕ
blank = record {
  results = [];
  run = record {
    id = 6;
    status = running;
    candidates_total = 0;
    candidates_ok = 0;
    candidates_failed = 0;
    dataset_rows = 0;
    feature_count = 0;
  };
  best_result = none;
}

run_search_lem_example :
    Succeeds tools (scored_by r2) blank (run_search tools (scored_by r2) blank)
    ⊎ Fails tools (scored_by r2) blank (run_search tools (scored_by r2) blank)
run_search_lem_example = run_search_lem tools (scored_by r2) blank sample-Samples tt

-- One candidate of the space is fitted, and two fail; the run succeeds.
saved_counts :
    ((run_search tools (scored_by r2) blank).run.candidates_total ≡ 3)
    × ((run_search tools (scored_by r2) blank).run.candidates_ok ≡ 1)
    × ((run_search tools (scored_by r2) blank).best_result ≡ some 0)
unfolding whole run_search
saved_counts = (refl, refl, refl)

run_search_unscored_example :
    run_search tools (scored_by Metric.directional_accuracy) blank
    ≡ record blank { run = record blank.run { status = failure not_a_number } }
unfolding whole expand scalar_score
run_search_unscored_example =
    run_search_unscored tools (scored_by Metric.directional_accuracy) blank dataset 0 {c = (1, [])}
      {h = record {
        metrics = fitted;
        fit_seconds = 1;
        predict_seconds = 1;
        predict_latency_ms = 1;
        model_size_bytes = 10;
      }}
      refl refl refl refl refl

whole-FiniteOrder : FiniteOrder ℕ
unfolding whole
whole-FiniteOrder = record {
  asymmetric = λ a b p q h. ground arith;
  cotransitive = λ a b c p q r h k. ground arith;
}

-- One of the two candidates is fitted.
abbrev two_candidates : List (Candidate ℕ)
two_candidates = (2, []) ∷ (1, []) ∷ []

abbrev one_scored : Swept ℕ ℕ
one_scored = record {
  rows =
      evaluate tools dataset (plain r2) none 6 0 (2, [])
      ∷ evaluate tools dataset (plain r2) none 6 1 (1, [])
      ∷ [];
  ranked =
      (1, record { score = 1; fit_seconds = 1; predict_latency_ms = 1; model_size_bytes = 10 })
      ∷ [];
}

ranked_rows_lem_example : IsRanking 1 (ranked_rows one_scored)
unfolding whole sweep_all evaluate
ranked_rows_lem_example =
    ranked_rows_lem {V = ℕ} {F = ℕ} whole-FiniteOrder tools 3 dataset (plain r2) none 6
      two_candidates {s = one_scored} refl
