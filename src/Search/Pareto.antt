-- ===== src/Search/Pareto.antt =====
-- `pareto_flags` of modelsearch/search.py: which of the ranked rows no other dominates.
use automated_stock_trading.Common.{
  ℕ, suc, ◌≡◌, Bool, true, false, not, List, [], ◌∷◌, ◌&&◌, ◌||◌, ◌==◌, leb, ltb, if◌then◌else◌,
}
use automated_stock_trading.Floats.{Floats, le_float, lt_float}

-- What the run hands over of a row: its score and the costs of COST_FIELDS.
pub record Costed (F : Type 0) : Type 0 where
  pub score : F
  pub fit_seconds : F
  pub predict_latency_ms : F
  pub model_size_bytes : ℕ

-- What holds of the comparisons of floating-point numbers, NaN included.
pub record Comparable (F : Type 0) ⦃f : Floats F⦄ : Type 0 where
  pub irreflexive : (a : F) → f.lt a a ≡ false
  pub transitive : (a b c : F) → f.le a b ≡ true → f.le b c ≡ true → f.le a c ≡ true
  pub lt_le : (a b c : F) → f.lt a b ≡ true → f.le b c ≡ true → f.lt a c ≡ true
  pub le_lt : (a b c : F) → f.le a b ≡ true → f.lt b c ≡ true → f.lt a c ≡ true

module _ {F : Type 0} ⦃f : Floats F⦄ where
  -- `not_worse` and `strictly_better` of `b` against `a`.
  unfoldable pub not_worse : (b a : Costed F) → Bool
  not_worse b a =
      le_float a.score b.score
      && (le_float b.fit_seconds a.fit_seconds
          && (le_float b.predict_latency_ms a.predict_latency_ms
              && leb b.model_size_bytes a.model_size_bytes))

  unfoldable pub strictly_better : (b a : Costed F) → Bool
  strictly_better b a =
      lt_float a.score b.score
      || (lt_float b.fit_seconds a.fit_seconds
          || (lt_float b.predict_latency_ms a.predict_latency_ms
              || ltb b.model_size_bytes a.model_size_bytes))

  -- `b` dominates `a`.
  unfoldable pub dominates : (b a : Costed F) → Bool
  unfolding not_worse strictly_better
  dominates b a = not_worse b a && strictly_better b a

  -- The loop of `_dominated` for the row `a` at place `i`, from place `j` on; `b is a` compares places.
  unfoldable pub dominated : (i : ℕ) → Costed F → (j : ℕ) → List (Costed F) → Bool
  unfolding dominates
  dominated i a j [] = false
  dominated i a j (b ∷ bs) =
      let rest = dominated i a (suc j) bs in
      if i == j then rest else if dominates b a then true else rest

  unfoldable pub flags_from : (i : ℕ) → List (Costed F) → List (Costed F) → List Bool
  unfolding dominated
  flags_from i rows [] = []
  flags_from i rows (a ∷ rest) = not (dominated i a 0 rows) ∷ flags_from (suc i) rows rest

  unfoldable pub pareto_flags : List (Costed F) → List Bool
  unfolding flags_from
  pareto_flags rows = flags_from 0 rows rows
