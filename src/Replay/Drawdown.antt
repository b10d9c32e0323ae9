-- ===== src/Replay/Drawdown.antt =====
-- What `max_drawdown` of strategies/backtesting/engine.py is of a curve.
use automated_stock_trading.Common.{
  ℕ, zero, suc, ◌≤◌, ◌≡◌, ◌⊎◌, ◌∙◌, refl, sym, subst, ap, true, false, some, some_inj, List, [],
  ◌∷◌, arith, get_elem?, Bool-cases, inl, inr,
}
use automated_stock_trading.Floats.{Floats, ◌⊖◌, ◌⊘◌, lt_float, float}
use automated_stock_trading.Replay.{BacktestResult}
use automated_stock_trading.Replay.Metrics.{greater, drawdown_at, drawdown_from, max_drawdown}

-- The comparison is a strict weak order, as it is on floats that are numbers.
pub record StrictOrder (F : Type 0) ⦃f : Floats F⦄ : Type 0 where
  pub asymmetric : (a b : F) → lt_float a b ≡ true → lt_float b a ≡ false
  pub cotransitive :
      (a b c : F) → lt_float a b ≡ false → lt_float b c ≡ false → lt_float a c ≡ false

module _ {F : Type 0} ⦃f : Floats F⦄ where
  -- The highest of what a curve starts from and its values up to a place.
  abbrev pub IsPeakAt : (start : F) → List (ℕ × F) → (place : ℕ) → F → Type 0
  IsPeakAt start curve place p =
      ((p ≡ start) ⊎ ((i t : ℕ) × (i ≤ place) × (get_elem? curve i ≡ some (t, p))))
      × (lt_float p start ≡ false)
      × ((i t : ℕ) (x : F) → i ≤ place → get_elem? curve i ≡ some (t, x) → lt_float p x ≡ false)

  -- The drawdown at a place of a curve, below its peak until there.
  abbrev pub IsDrawdownAt : (start : F) → List (ℕ × F) → (place : ℕ) → F → Type 0
  IsDrawdownAt start curve place d =
      (t : ℕ) × (equity p : F) × (get_elem? curve place ≡ some (t, equity))
      × IsPeakAt start curve place p
      × (lt_float (float 0) p ≡ true)
      × (d ≡ (p ⊖ equity) ⊘ p)

  -- The greatest of some drawdown before and all drawdowns of a curve.
  abbrev pub IsGreatest : (start before : F) → List (ℕ × F) → F → Type 0
  IsGreatest start before curve most =
      (lt_float most before ≡ false)
      × ((place t : ℕ) (equity : F)
          → get_elem? curve place ≡ some (t, equity)
          → (p : F) × IsPeakAt start curve place p
            × (lt_float (float 0) p ≡ true → lt_float most ((p ⊖ equity) ⊘ p) ≡ false))
      × ((most ≡ before) ⊎ ((place : ℕ) × IsDrawdownAt start curve place most))

  module _ (order : StrictOrder F) where
    irreflexive : (a : F) → lt_float a a ≡ false
    irreflexive a = elim (Bool-cases (lt_float a a)) [ inl e ↦ order.asymmetric a a e | inr e ↦ e ]

    greater_left : (a b : F) → lt_float (greater a b) a ≡ false
    greater_left a b = elim (Bool-cases (lt_float a b)) [
      | inl e ↦ rw e (order.asymmetric a b e)
      | inr e ↦ rw e (irreflexive a)
    ]

    greater_right : (a b : F) → lt_float (greater a b) b ≡ false
    greater_right a b = elim (Bool-cases (lt_float a b)) [
      | inl e ↦ rw e (irreflexive b)
      | inr e ↦ rw e e
    ]

    greater_either : (a b : F) → (greater a b ≡ a) ⊎ (greater a b ≡ b)
    greater_either a b = elim (Bool-cases (lt_float a b)) [
      | inl e ↦ inr (rw e refl)
      | inr e ↦ inl (rw e refl)
    ]

    -- The first place.
    first_peak :
        (start : F) (t : ℕ) (e : F) (rest : List (ℕ × F))
        → IsPeakAt start ((t, e) ∷ rest) 0 (greater start e)
    first_peak start t e rest = (
      elim (greater_either start e) [
        | inl q ↦ inl q
        | inr q ↦ inr (0, t, omega arith, ap (λ x. some (t, x)) (sym q))
      ],
      greater_left start e,
      only_first,
    )
      where
        only_first :
            (i u : ℕ) (x : F)
            → i ≤ 0
            → get_elem? ((t, e) ∷ rest) i ≡ some (u, x)
            → lt_float (greater start e) x ≡ false
        only_first zero u x le at =
            subst (λ v. lt_float (greater start e) v.1 ≡ false) (some_inj.0 at)
              (greater_right start e)
        only_first (suc i) u x le at = absurd (omega arith)

    -- The other places.
    later_peak :
        (start : F) (t : ℕ) (e : F) (rest : List (ℕ × F)) (place : ℕ) (p : F)
        → IsPeakAt (greater start e) rest place p
        → IsPeakAt start ((t, e) ∷ rest) (suc place) p
    later_peak start t e rest place p (source, over, all) = (
      elim source [
        | inl q ↦ elim (greater_either start e) [
          | inl k ↦ inl (q ∙ k)
          | inr k ↦ inr (0, t, omega arith, ap (λ x. some (t, x)) (sym (q ∙ k)))
        ]
        | inr (i, u, le, at) ↦ inr (suc i, u, omega arith, at)
      ],
      order.cotransitive p (greater start e) start over (greater_left start e),
      under,
    )
      where
        under :
            (i u : ℕ) (x : F)
            → i ≤ suc place
            → get_elem? ((t, e) ∷ rest) i ≡ some (u, x)
            → lt_float p x ≡ false
        under zero u x le at =
            subst (λ v. lt_float p v.1 ≡ false) (some_inj.0 at)
              (order.cotransitive p (greater start e) e over (greater_right start e))
        under (suc i) u x le at = all i u x (omega arith) at

    later_drawdown :
        (start : F) (t : ℕ) (e : F) (rest : List (ℕ × F)) (place : ℕ) (d : F)
        → IsDrawdownAt (greater start e) rest place d
        → IsDrawdownAt start ((t, e) ∷ rest) (suc place) d
    later_drawdown start t e rest place d (u, x, p, at, peak, above, same) =
        (u, x, p, at, later_peak start t e rest place p peak, above, same)

    drawdown_at_ge :
        (p before e : F)
        → (lt_float (drawdown_at p before e) before ≡ false)
          × (lt_float (float 0) p ≡ true → lt_float (drawdown_at p before e) ((p ⊖ e) ⊘ p) ≡ false)
          × ((drawdown_at p before e ≡ before)
              ⊎ ((lt_float (float 0) p ≡ true) × (drawdown_at p before e ≡ (p ⊖ e) ⊘ p)))
    drawdown_at_ge p before e = elim (Bool-cases (lt_float (float 0) p)) [
      | inl k ↦ rw k (
        greater_left before ((p ⊖ e) ⊘ p),
        (λ _. greater_right before ((p ⊖ e) ⊘ p)),
        elim (greater_either before ((p ⊖ e) ⊘ p)) [ inl q ↦ inl q | inr q ↦ inr (refl, q) ],
      )
      | inr k ↦ rw k (irreflexive before, (λ h. absurd cc), inl refl)
    ]

    drawdown_from-IsGreatest :
        (start before : F) (curve : List (ℕ × F))
        → IsGreatest start before curve (drawdown_from start before curve)
    unfolding drawdown_from
    drawdown_from-IsGreatest start before [] =
        (irreflexive before, (λ place t e at. absurd cc), inl refl)
    drawdown_from-IsGreatest start before ((t, e) ∷ rest) =
        let p = greater start e in
        let now = drawdown_at p before e in
        let most = drawdown_from p now rest in
        let (ge, under, same) = drawdown_at_ge p before e in
        let (further, each, source) = drawdown_from-IsGreatest p now rest in
        (
          order.cotransitive most now before further ge,
          places most (λ k. order.cotransitive most now ((p ⊖ e) ⊘ p) further (under k)) each,
          found most source same,
        )
      where
        p : F
        p = greater start e

        places :
            (most : F)
            → (lt_float (float 0) p ≡ true → lt_float most ((p ⊖ e) ⊘ p) ≡ false)
            → ((place u : ℕ) (x : F)
                → get_elem? rest place ≡ some (u, x)
                → (q : F) × IsPeakAt p rest place q
                  × (lt_float (float 0) q ≡ true → lt_float most ((q ⊖ x) ⊘ q) ≡ false))
            → (place u : ℕ) (x : F) → get_elem? ((t, e) ∷ rest) place ≡ some (u, x)
            → (q : F) × IsPeakAt start ((t, e) ∷ rest) place q
              × (lt_float (float 0) q ≡ true → lt_float most ((q ⊖ x) ⊘ q) ≡ false)
        places most here each zero u x at = (
          p,
          first_peak start t e rest,
          subst (λ v. lt_float (float 0) p ≡ true → lt_float most ((p ⊖ v.1) ⊘ p) ≡ false)
              (some_inj.0 at) here,
        )
        places most here each (suc place) u x at =
            let (q, peak, le) = each place u x at in (q, later_peak start t e rest place q peak, le)

        found :
            (most : F)
            → (most ≡ drawdown_at p before e) ⊎ ((place : ℕ) × IsDrawdownAt p rest place most)
            → (drawdown_at p before e ≡ before)
              ⊎ ((lt_float (float 0) p ≡ true) × (drawdown_at p before e ≡ (p ⊖ e) ⊘ p))
            → (most ≡ before) ⊎ ((place : ℕ) × IsDrawdownAt start ((t, e) ∷ rest) place most)
        found most (inl q) (inl k) = inl (q ∙ k)
        found most (inl q) (inr (above, k)) =
            inr (0, (t, e, p, refl, first_peak start t e rest, above, q ∙ k))
        found most (inr (place, d)) same =
            inr (suc place, later_drawdown start t e rest place most d)

    -- Where the comparison of floats is a strict weak order, the maximal drawdown of a replay is
    -- the greatest: at each place of the curve there is a highest value p of the initial cash and
    -- the curve until there, and if p is positive, the fall from p to the equity at the place, as a
    -- part of p, is not above the maximal drawdown; and the maximal drawdown is zero or is such a
    -- fall at some place.
    pub max_drawdown_lem :
        (r : BacktestResult F) → IsGreatest r.initial_cash (float 0) r.equity_curve (max_drawdown r)
    unfolding max_drawdown
    max_drawdown_lem r = drawdown_from-IsGreatest r.initial_cash (float 0) r.equity_curve
