-- ===== src/Search/Settled.antt =====
-- What ranking the rows in `run_search` of modelsearch/search.py makes sure of, row by row.
use automated_stock_trading.Common.{
  ℕ, zero, suc, ◌<◌, ◌≡◌, ◌≢◌, ◌⊎◌, ap, ◌∙◌, ◌==◌, Option, none, some, List, [], ◌∷◌, map, inl, inr,
  length, All, get_elem?, sort_by, All-sort_by, exists-sort_by, arith,
}
use automated_stock_trading.Floats.{Floats}
use automated_stock_trading.Search.Pareto.{Costed, pareto_flags}
use automated_stock_trading.Search.Run.{Swept, ranks_after, rankable}
use automated_stock_trading.Search.Save.{rank_rows, ranked_rows}
use automated_stock_trading.Search.Tracked.{IsOwn, IsEntered, IsTracked, All-map}
use automated_stock_trading.Search.Ranking.{
  IsPlace, Ranks, DueIf, rank_rows-Ranks, rank_rows-All, flag_rows-All, rank_rows-DueIf,
}
use automated_stock_trading.Search.Rows.{Result, Attempt, done, raised}

pub get_elem?-lt {ℓ} :
    {A : Type ℓ} (xs : List A) (i : ℕ) {x : A} → get_elem? xs i ≡ some x → i < length xs
get_elem?-lt [] i h = absurd cc
get_elem?-lt (x ∷ xs) zero h = omega arith
get_elem?-lt (x ∷ xs) (suc i) h = omega (arith, get_elem?-lt xs i h)

module _ {F : Type 0} where
  pub costs_inj : {c d : Costed F} → done (some c) ≡ done (some d) → c ≡ d
  costs_inj {c} e = ap (λ m. costs_or c m) e
    where
      costs_or : Costed F → Attempt (Option (Costed F)) → Costed F
      costs_or c (done (some d)) = d
      costs_or c (done none) = c
      costs_or c (raised e) = c

module _ {V F : Type 0} ⦃f : Floats F⦄ where
  abbrev WithCosts : Costed F → Result V F → Type 0
  WithCosts c r = rankable r.evaluation ≡ done (some c)

  abbrev HasCosts : Result V F → Type 0
  HasCosts r = (c : Costed F) × WithCosts c r

  -- What the ranking has made sure of for one row.
  abbrev pub IsSettled : List (ℕ × Costed F) → Result V F → Type 0
  IsSettled ranked r = IsOwn ranked r × Ranks (IsPlace ranked 1) r × (HasCosts r → r.rank ≢ none)

  All-and3 :
      (P Q R : Result V F → Type 0) (rows : List (Result V F))
      → All P rows
      → All Q rows
      → All R rows
      → All (λ r. P r × Q r × R r) rows
  All-and3 P Q R [] p q r = tt
  All-and3 P Q R (x ∷ rows) (p, ps) (q, qs) (r, rs) = ((p, q, r), All-and3 P Q R rows ps qs rs)

  pub ranked_rows-IsSettled :
      (s : Swept V F)
      → IsTracked 0 s
      → All (IsSettled (sort_by ranks_after s.ranked)) (ranked_rows s)
  unfolding ranked_rows
  ranked_rows-IsSettled s ((rows, entries), own, entered) =
      flag_rows-All (IsSettled ranked) ranked (pareto_flags (map (λ x. x.1) ranked))
        (rank_rows ranked 1 s.rows) (λ r b h. h)
        (All-and3 (IsOwn ranked) (Ranks (IsPlace ranked 1)) (λ r. HasCosts r → r.rank ≢ none)
          (rank_rows ranked 1 s.rows)
          (rank_rows-All (IsOwn ranked) ranked 1 s.rows (λ r k h. h)
            (All-map (IsOwn s.ranked) (IsOwn ranked) s.rows
              (λ r h.
                All-sort_by ranks_after (λ e. r.id ≡ e.0 → rankable r.evaluation ≡ done (some e.1))
                  s.ranked h)
              own))
          (All-map _ _ (rank_rows ranked 1 s.rows) (λ r h m e. placed (h m e))
            (rank_rows-Ranks (λ id m. ⊥) ranked 1 s.rows
              (All-map _ _ s.rows (λ r (a, b, n) m e. cc) rows)))
          (rank_rows-DueIf HasCosts ranked 1 s.rows (
            All-map (IsEntered s.ranked) (DueIf HasCosts ranked) s.rows
              (λ r h (c, e). inr (exists-sort_by ranks_after (λ x. x.0 == r.id) s.ranked ∙ h c e))
              entered)))
    where
      ranked : List (ℕ × Costed F)
      ranked = sort_by ranks_after s.ranked

      placed : {id m : ℕ} → ⊥ ⊎ IsPlace ranked 1 id m → IsPlace ranked 1 id m
      placed (inl a) = absurd a
      placed (inr p) = p
