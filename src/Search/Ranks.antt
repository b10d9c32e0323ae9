-- ===== src/Search/Ranks.antt =====
-- The ranks that `run_search` of modelsearch/search.py gives to the rows of a search.
use automated_stock_trading.Common.{
  ℕ, ◌≤◌, ◌<◌, ◌≡◌, refl, sym, ap, ◌∙◌, subst, some_inj, true, false, Option, Option-cases, none,
  some, List, inl, inr, length, All-at, get_elem?, sort_by, IsOrdered, IsOrdered-at,
  sort_by-IsOrdered, length-sort_by, arith,
}
use automated_stock_trading.Floats.{Floats, lt_float}
use automated_stock_trading.Folds.Sessions.{Fold}
use automated_stock_trading.Search.Space.{Candidate}
use automated_stock_trading.Search.Pareto.{Costed}
use automated_stock_trading.Search.Evaluate.{evaluate}
use automated_stock_trading.Search.Run.{Swept, ranks_after, rankable}
use automated_stock_trading.Search.Save.{ranked_rows, sweep_all}
use automated_stock_trading.Search.Tracked.{IsAny, IsOwn, IsTracked, All-map, sweep_all-IsTracked}
use automated_stock_trading.Search.Ranking.{FiniteOrder}
use automated_stock_trading.Search.Saving.{Post}
use automated_stock_trading.Search.Rows.{Result, ScoreKey, done, Tools, Dataset}
use automated_stock_trading.Search.Settled.{
  get_elem?-lt, costs_inj, IsSettled, ranked_rows-IsSettled,
}

module _ {V F : Type 0} ⦃f : Floats F⦄ where
  -- What the ranks of saved rows promise.
  abbrev pub IsRanking : (count : ℕ) → List (Result V F) → Type 0
  IsRanking count rows =
      ((i : ℕ) (a : Result V F) (c : Costed F)
        → get_elem? rows i ≡ some a
        → rankable a.evaluation ≡ done (some c)
        → (m : ℕ) × (a.rank ≡ some m) × (1 ≤ m) × (m ≤ count))
      × ((i : ℕ) (a : Result V F)
          → get_elem? rows i ≡ some a
          → rankable a.evaluation ≡ done none
          → a.rank ≡ none)
      × ((i j m n : ℕ) (a b : Result V F) (c d : Costed F)
          → get_elem? rows i ≡ some a
          → get_elem? rows j ≡ some b
          → rankable a.evaluation ≡ done (some c)
          → rankable b.evaluation ≡ done (some d)
          → a.rank ≡ some m
          → b.rank ≡ some n
          → m < n
          → lt_float c.score d.score ≡ false)
      × ((i j m : ℕ) (a b : Result V F)
          → get_elem? rows i ≡ some a
          → get_elem? rows j ≡ some b
          → a.rank ≡ some m
          → b.rank ≡ some m
          → a.id ≡ b.id)

  -- The entry at the place of a ranked row carries the costs of the row.
  entry_costs :
      (ranked : List (ℕ × Costed F)) (r : Result V F) (p : ℕ) {e : Costed F}
      → IsOwn ranked r
      → get_elem? ranked p ≡ some (r.id, e)
      → rankable r.evaluation ≡ done (some e)
  entry_costs ranked r p own g =
      All-at (λ x. r.id ≡ x.0 → rankable r.evaluation ≡ done (some x.1)) ranked p own g refl

  unranked :
      (ranked : List (ℕ × Costed F)) (r : Result V F)
      → IsSettled ranked r
      → rankable r.evaluation ≡ done none
      → r.rank ≡ none
  unranked ranked r (own, places, due) h = elim (Option-cases r.rank) [
    | inl e ↦ e
    | inr (m, e) ↦
        let (p, c, g, q) = places m e in absurd (none_some (sym h ∙ entry_costs ranked r p own g))
  ]
    where
      none_some : {c : Costed F} → done none ≡ done (some c) → ⊥
      none_some p = cc

  has_rank :
      (ranked : List (ℕ × Costed F)) (r : Result V F) (c : Costed F)
      → IsSettled ranked r
      → rankable r.evaluation ≡ done (some c)
      → (m : ℕ) × (r.rank ≡ some m) × (1 ≤ m) × (m ≤ length ranked)
  has_rank ranked r c (own, places, due) h = elim (Option-cases r.rank) [
    | inl e ↦ absurd (due (c, h) e)
    | inr (m, e) ↦
        let (p, d, g, q) = places m e in
        let lt = get_elem?-lt ranked p g in (m, e, omega arith, omega arith)
  ]

  evaluate_fresh :
      (tools : Tools V F) (dataset : Dataset F) (key : ScoreKey) (folds : Option (List Fold))
      (run id : ℕ) (c : Candidate V)
      → ((evaluate tools dataset key folds run id c).id ≡ id)
        × ((evaluate tools dataset key folds run id c).rank ≡ none)
  unfolding evaluate
  evaluate_fresh tools dataset key folds run id c = (refl, refl)

  module _ (order : FiniteOrder F) where
    ranked-IsOrdered :
        (s : Swept V F) → IsTracked 0 s → IsOrdered ranks_after (sort_by ranks_after s.ranked)
    ranked-IsOrdered s ((rows, entries), own, entered) =
        sort_by-IsOrdered ranks_after (λ e. f.is_finite e.1.score ≡ true)
          (λ x y p q h. order.asymmetric x.1.score y.1.score p q h)
          (λ x y z p q r h k. order.cotransitive x.1.score y.1.score z.1.score p q r h k) s.ranked
          (All-map _ _ s.ranked (λ e (a, b, c). c) entries)

    ranks_order :
        (ranked : List (ℕ × Costed F)) (a b : Result V F) (c d : Costed F) (m n : ℕ)
        → IsOrdered ranks_after ranked
        → IsSettled ranked a
        → IsSettled ranked b
        → rankable a.evaluation ≡ done (some c)
        → rankable b.evaluation ≡ done (some d)
        → a.rank ≡ some m
        → b.rank ≡ some n
        → m < n
        → lt_float c.score d.score ≡ false
    ranks_order ranked a b c d m n o (own, places, _) (own', places', _) h k e g lt =
        let (p, x, at, q) = places m e in
        let (p', y, at', q') = places' n g in
        let same = costs_inj (sym (entry_costs ranked a p own at) ∙ h) in
        let same' = costs_inj (sym (entry_costs ranked b p' own' at') ∙ k) in
        subst (λ z. lt_float z.score d.score ≡ false) same
          (subst (λ z. lt_float x.score z.score ≡ false) same'
            (IsOrdered-at ranks_after ranked p p' o (omega arith) at at'))

    one_rank :
        (ranked : List (ℕ × Costed F)) (a b : Result V F) (m : ℕ)
        → IsSettled ranked a
        → IsSettled ranked b
        → a.rank ≡ some m
        → b.rank ≡ some m
        → a.id ≡ b.id
    one_rank ranked a b m (_, places, _) (_, places', _) e g =
        let (p, x, at, q) = places m e in
        let (p', y, at', q') = places' m g in
        let here = subst (λ k. get_elem? ranked k ≡ some (b.id, y)) (omega arith) at' in
        ap (λ w. w.0) (some_inj.0 (sym at ∙ here))

    IsTracked-IsRanking :
        (s : Swept V F) → IsTracked 0 s → IsRanking (length s.ranked) (ranked_rows s)
    IsTracked-IsRanking s t =
        let ranked = sort_by ranks_after s.ranked in
        let settled = ranked_rows-IsSettled s t in
        let at = λ (i : ℕ) (a : Result V F) (e : get_elem? (ranked_rows s) i ≡ some a).
          All-at (IsSettled ranked) (ranked_rows s) i settled e in
        (
          (λ i a c e h.
              subst (λ k. (m : ℕ) × (a.rank ≡ some m) × (1 ≤ m) × (m ≤ k))
                (length-sort_by ranks_after s.ranked) (has_rank ranked a c (at i a e) h)),
          (λ i a e h. unranked ranked a (at i a e) h),
          (λ i j m n a b c d e g h k rm rn lt.
              ranks_order ranked a b c d m n (ranked-IsOrdered s t) (at i a e) (at j b g) h k rm rn
                lt),
          (λ i j m a b e g. one_rank ranked a b m (at i a e) (at j b g)),
        )

    -- Where the comparison of finite numbers is a strict weak order: of the rows of a search that a
    -- sweep has evaluated without an exception, every row with a finite score has a rank, from one
    -- up to the number of entries collected for the ranking; a row that failed or whose score is
    -- not finite has none; of two rows with scores and ranks the one with the lower rank does not
    -- have the lower score; and rows of one rank are one object.
    pub ranked_rows_lem :
        (tools : Tools V F) (top_k : ℕ) (dataset : Dataset F) (key : ScoreKey)
        (folds : Option (List Fold)) (run : ℕ) (cs : List (Candidate V)) {s : Swept V F}
        → sweep_all tools top_k dataset (evaluate tools dataset key folds run) cs ≡ done s
        → IsRanking (length s.ranked) (ranked_rows s)
    ranked_rows_lem tools top_k dataset key folds run cs {s} h = IsTracked-IsRanking s (
        subst (Post IsAny (IsTracked 0)) h (
          sweep_all-IsTracked (evaluate tools dataset key folds run)
            (λ id c. evaluate_fresh tools dataset key folds run id c) tools top_k dataset cs))
