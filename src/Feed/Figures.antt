-- ===== src/Feed/Figures.antt =====
-- Which figures of a model the gate of signalfeed/gate.py judges it by.
use automated_stock_trading.Common.{
  ℕ, zero, suc, ◌<◌, ◌≡◌, ◌↔◌, ◌⊎◌, refl, sym, ap, ◌∙◌, subst, some_inj, Bool, true, false, Option,
  none, some, List, [], ◌∷◌, ltb, ◌==◌, ◌&&◌, get_elem?, Bool-cases, Option-cases, inl, inr, arith,
}
use automated_stock_trading.Floats.{Floats}
use automated_stock_trading.Feed.Rows.{Stats, BoardRow, TradingModel, WatchItem}
use automated_stock_trading.Feed.Gate.{
  ranked_stats, live_stats, stats_of, evaluate_gate, Clears, evaluate_gate-Clears,
}

module _ {F : Type 0} where
  -- A row of the leaderboard that has predictions of the model.
  abbrev pub IsRowOf : (m : ℕ) → BoardRow F → Type 0
  IsRowOf m r = (r.model ≡ m) × (0 < r.n)

  -- The figures of the first such row.
  abbrev pub IsLive : (m : ℕ) → List (BoardRow F) → Stats F → Type 0
  IsLive m board s =
      (k : ℕ) × (r : BoardRow F) × (get_elem? board k ≡ some r)
      × IsRowOf m r
      × ((j : ℕ) (q : BoardRow F) → j < k → get_elem? board j ≡ some q → ¬ IsRowOf m q)
      × (s ≡ record {
        is_live = true;
        directional_accuracy = r.directional_accuracy;
        skill = r.skill;
      })

  -- The leaderboard handed over, or else one that could be built.
  abbrev pub IsBoard : (built board : Option (List (BoardRow F))) → List (BoardRow F) → Type 0
  IsBoard built board b = (board ≡ some b) ⊎ ((board ≡ none) × (built ≡ some b))

  abbrev pub IsLiveOf :
      (built : Option (List (BoardRow F)))
      → TradingModel F
      → Option (List (BoardRow F))
      → Stats F
      → Type 0
  IsLiveOf built m board s = (b : List (BoardRow F)) × IsBoard built board b × IsLive m.id b s

  -- Live figures, or else those of the holdout.
  abbrev pub IsJudgedBy :
      (built : Option (List (BoardRow F)))
      → TradingModel F
      → Option (List (BoardRow F))
      → Stats F
      → Type 0
  IsJudgedBy built m board s =
      IsLiveOf built m board s
      ⊎ (((live : Stats F) → ¬ IsLiveOf built m board live) × (m.holdout ≡ some s))

  test_row : (m : ℕ) (r : BoardRow F) → IsRowOf m r → (r.model == m && ltb 0 r.n) ≡ true
  test_row m r (a, b) = ground (arith, a, b)

  row_tested : (m : ℕ) (r : BoardRow F) → (r.model == m && ltb 0 r.n) ≡ true → IsRowOf m r
  row_tested m r e = (ground (arith, e), ground (arith, e))

  ranked_stats-IsLive :
      (m : ℕ) (board : List (BoardRow F)) {s : Stats F}
      → ranked_stats m board ≡ some s
      → IsLive m board s
  unfolding ranked_stats
  ranked_stats-IsLive m [] h = absurd cc
  ranked_stats-IsLive m (r ∷ rs) {s} h = elim (Bool-cases (r.model == m && ltb 0 r.n)) [
    | inl e ↦ (
      0,
      r,
      refl,
      row_tested m r e,
      (λ j q lt. absurd (omega arith)),
      sym (some_inj.0 (rw e at h)),
    )
    | inr e ↦
        let (k, q, at, own, before, same) = ranked_stats-IsLive m rs (rw e at h) in
        (suc k, q, at, own, earlier k before (λ t. absurd (not_both (test_row m r t) e)), same)
  ]
    where
      not_both : {b : Bool} → b ≡ true → b ≡ false → ⊥
      not_both p q = cc

      earlier :
          (k : ℕ)
          → ((j : ℕ) (q : BoardRow F) → j < k → get_elem? rs j ≡ some q → ¬ IsRowOf m q)
          → ¬ IsRowOf m r
          → (j : ℕ) (q : BoardRow F) → j < suc k
          → get_elem? (r ∷ rs) j ≡ some q
          → ¬ IsRowOf m q
      earlier k before head zero q lt at own = head (subst (IsRowOf m) (sym (some_inj.0 at)) own)
      earlier k before head (suc j) q lt at own = before j q (omega arith) at own

  IsLive-ranked_stats :
      (m : ℕ) (board : List (BoardRow F)) (s : Stats F)
      → IsLive m board s
      → ranked_stats m board ≡ some s
  unfolding ranked_stats
  IsLive-ranked_stats m [] s (k, r, at, own, before, same) = absurd cc
  IsLive-ranked_stats m (q ∷ rs) s (zero, r, at, own, before, same) =
      rw (test_row m q (subst (IsRowOf m) (sym (some_inj.0 at)) own)) (
        ap
          (λ k. some (record {
            is_live = true;
            directional_accuracy = k.directional_accuracy;
            skill = k.skill;
          }))
          (some_inj.0 at)
        ∙ ap some (sym same))
  IsLive-ranked_stats m (q ∷ rs) s (suc k, r, at, own, before, same) =
      elim (Bool-cases (q.model == m && ltb 0 q.n)) [
        | inl e ↦ absurd (before 0 q (omega arith) refl (row_tested m q e))
        | inr e ↦ rw e (
            IsLive-ranked_stats m rs s
              (k, r, at, own, (λ j p lt g. before (suc j) p (omega arith) g), same))
      ]

  live_stats_iff :
      (built : Option (List (BoardRow F))) (m : TradingModel F) (board : Option (List (BoardRow F)))
      (s : Stats F)
      → (live_stats built m board ≡ some s) ↔ IsLiveOf built m board s
  unfolding live_stats
  live_stats_iff built m (some b) s = (
    (λ h. (b, inl refl, ranked_stats-IsLive m.id b h)),
    λ (c, which, live). elim which [
      | inl e ↦
          IsLive-ranked_stats m.id b s (subst (λ l. IsLive m.id l s) (sym (some_inj.0 e)) live)
      | inr (e, _) ↦ absurd cc
    ],
  )
  live_stats_iff (some b) m none s = (
    (λ h. (b, inr (refl, refl), ranked_stats-IsLive m.id b h)),
    λ (c, which, live). elim which [
      | inl e ↦ absurd cc
      | inr (_, e) ↦
          IsLive-ranked_stats m.id b s (subst (λ l. IsLive m.id l s) (sym (some_inj.0 e)) live)
    ],
  )
  live_stats_iff none m none s = (
    (λ h. absurd cc),
    λ (c, which, live). elim which [ inl e ↦ absurd cc | inr (_, e) ↦ absurd cc ],
  )

  stats_of_iff :
      (built : Option (List (BoardRow F))) (m : TradingModel F) (board : Option (List (BoardRow F)))
      (s : Stats F)
      → (stats_of built m board ≡ some s) ↔ IsJudgedBy built m board s
  unfolding stats_of
  stats_of_iff built m board s = elim (Option-cases (live_stats built m board)) [
    | inl e ↦
        let no_live = λ (live : Stats F) (h : IsLiveOf built m board live).
          none_some (sym e ∙ (live_stats_iff built m board live).1 h) in
        (
          (λ h. inr (no_live, rw (e, stats_of) at h)),
          λ which. elim which [ inl h ↦ absurd (no_live s h) | inr (_, h) ↦ rw (e, stats_of) h ],
        )
    | inr (live, e) ↦
        let found = (live_stats_iff built m board live).0 e in
        (
          (λ h. inl ((live_stats_iff built m board s).0 (e ∙ (rw (e, stats_of) at h)))),
          λ which. elim which [
            | inl h ↦ rw (e, stats_of) (sym e ∙ (live_stats_iff built m board s).1 h)
            | inr (no_live, _) ↦ absurd (no_live live found)
          ],
        )
  ]
    where
      none_some : {k : Stats F} → none ≡ some k → ⊥
      none_some e = cc

module _ {F : Type 0} ⦃f : Floats F⦄ where
  -- A watch item with a model passes the gate exactly if the model is active and trained and there are
  -- figures to judge it by whose accuracy is known and not below its bar and, where a positive skill
  -- is asked for, whose skill is known and not below its bar; these are the live figures, of the
  -- first row of the leaderboard that has predictions of the model, where there is such a row of the
  -- leaderboard handed over or built, and only otherwise those of the holdout.
  pub evaluate_gate_iff :
      (built : Option (List (BoardRow F))) (item : WatchItem F) (m : TradingModel F)
      (board : Option (List (BoardRow F)))
      → ((evaluate_gate built item (some m) board).passed ≡ true) ↔ (
          (m.is_active ≡ true)
          × (m.has_artifact ≡ true)
          × ((s : Stats F) × IsJudgedBy built m board s × Clears item (some s)))
  evaluate_gate_iff built item m board =
      let (to, from) = evaluate_gate-Clears built item m board in
      (
        (λ h. let (a, b, c) = to h in (a, b, judged (stats_of built m board) refl c)),
        λ (a, b, (s, judge, c)).
            from (a, b, subst (Clears item) (sym ((stats_of_iff built m board s).1 judge)) c),
      )
    where
      judged :
          (o : Option (Stats F))
          → stats_of built m board ≡ o
          → Clears item o
          → (s : Stats F) × IsJudgedBy built m board s × Clears item (some s)
      judged none e c = absurd c
      judged (some s) e c = (s, (stats_of_iff built m board s).0 e, c)
