-- ===== src/Feed/Sizing.antt =====
-- From a forecast to a call: `_interpret` of signalfeed/services.py, and signalfeed/sizing.py.
use automated_stock_trading.Common.{
  ℕ, ◌≡◌, Bool, true, false, not, Option, none, some, ◌&&◌, ◌||◌, if◌then◌else◌, Bool-cases, sym,
  subst, inl, inr,
}
use automated_stock_trading.Floats.{Floats, ◌⊕◌, ◌⊖◌, ◌⊗◌, ◌⊘◌, lt_float, le_float, float}
use automated_stock_trading.Feed.Rows.{
  TargetType, Direction, up, down, flat, horizon_return, SizeSuggestion, WatchItem,
}

-- `round(x, n)`, and `int(math.floor(x))` of a number that is finite and not negative.
pub record Rounds (F : Type 0) : Type 0 where
  pub round_to : ℕ → F → F
  pub floor_int : F → ℕ

abbrev pub is_actionable : Direction → Bool
is_actionable up = true
is_actionable down = true
is_actionable flat = false

module _ {F : Type 0} ⦃f : Floats F⦄ where
  -- Whether a number counts as true, which all but zero do.
  abbrev pub is_nonzero : F → Bool
  is_nonzero x = not (le_float x (float 0) && le_float (float 0) x)

  -- A close that is there and not zero, `if reference_close`.
  abbrev pub nonzero_close : Option F → Option F
  nonzero_close none = none
  nonzero_close (some x) = if is_nonzero x then some x else none

  -- The predicted close and return for a predicted value, by the type of the target.
  unfoldable pub forecast : Option TargetType → F → Option F → Option F × Option F
  forecast (some horizon_return) v ref = elim ref [
    | none ↦ (none, some (v ⊗ float 100))
    | some r ↦ (some (r ⊗ (float 1 ⊕ v)), some (v ⊗ float 100))
  ]
  forecast _ v ref = elim ref [
    | none ↦ (some v, none)
    | some r ↦ (some v, some ((v ⊘ r ⊖ float 1) ⊗ float 100))
  ]

  -- The direction of an expected return.
  unfoldable pub direction_of : Option F → F → Direction
  direction_of none threshold = flat
  direction_of (some x) threshold =
      if le_float threshold x then up else if le_float x (float 0 ⊖ threshold) then down else flat

  -- The direction of a classifier, `up if pv >= 0.5 else down`.
  abbrev pub classified : F → Direction
  classified v = if le_float (float 1 ⊘ float 2) v then up else down

  -- `_interpret`
  unfoldable pub interpret :
      Option TargetType → Option F → Option F → F → Option F × Option F × Direction
  unfolding forecast direction_of
  interpret t none ref threshold = (none, none, flat)
  interpret (some TargetType.direction) (some v) ref threshold = (none, none, classified v)
  interpret t (some v) ref threshold =
      let (close, expected) = forecast t v (nonzero_close ref) in
      (close, expected, direction_of expected threshold)

  -- Python's `max(a, b)` and `min(a, b)`, which keep the first of two that compare equal.
  abbrev pub max_float : F → F → F
  max_float a b = if lt_float a b then b else a

  abbrev pub min_float : F → F → F
  min_float a b = if lt_float b a then b else a

  -- `cap_fraction` of `suggest_size`.
  abbrev pub cap_fraction : F → F
  cap_fraction max_pct = max_float (float 0) (min_float (max_pct ⊘ float 100) (float 1))

  -- `edge`
  abbrev pub edge : Option F → F
  edge none = max_float (float 0) (float 2 ⊗ (float 1 ⊘ float 2) ⊖ float 1)
  edge (some a) = max_float (float 0) (float 2 ⊗ a ⊖ float 1)

  -- `fraction`, before it is rounded.
  unfoldable pub fraction_of : F → Option F → F → F
  fraction_of max_pct accuracy kelly =
      let cap = cap_fraction max_pct in
      let kf = max_float (float 0) kelly in
      let raw = if is_nonzero kf then kf ⊗ edge accuracy else cap in
      max_float (float 0) (min_float raw cap)

  -- `shares`
  unfoldable pub shares_for : Rounds F → F → Option F → ℕ
  shares_for r notional ref = elim ref [
    | none ↦ 0
    | some c ↦ if lt_float (float 0) c then r.floor_int (notional ⊘ c) else 0
  ]

  -- `suggest_size`, as `_size_hint` calls it.
  unfoldable pub suggest_size :
      Rounds F → WatchItem F → Direction → Option F → Option F → Option (SizeSuggestion F)
  unfolding fraction_of shares_for
  suggest_size r item way accuracy ref =
      let capital = item.sizing_capital in
      if le_float capital (float 0) || not (is_actionable way)
      then none
      else (let fraction = fraction_of item.max_position_pct accuracy item.kelly_fraction in
          let notional = capital ⊗ fraction in
          some (record {
            fraction = r.round_to 4 fraction;
            notional = r.round_to 2 notional;
            shares = shares_for r notional ref;
          }))

  max_float_lower :
      (x : F)
      → ((y : F) → lt_float y y ≡ false)
      → ((y z : F) → lt_float y z ≡ true → lt_float z y ≡ false)
      → lt_float (max_float (float 0) x) (float 0) ≡ false
  max_float_lower x irr asym = elim (Bool-cases (lt_float (float 0) x)) [
    | inl e ↦ rw e (asym (float 0) x e)
    | inr e ↦ rw e (irr (float 0))
  ]

  min_float_upper :
      (x cap : F) → ((y : F) → lt_float y y ≡ false) → lt_float cap (min_float x cap) ≡ false
  min_float_upper x cap irr = elim (Bool-cases (lt_float cap x)) [
    | inl e ↦ rw e (irr cap)
    | inr e ↦ rw e e
  ]

  clamp_upper :
      (x max_pct : F)
      → ((y : F) → lt_float y y ≡ false)
      → ((y z : F) → lt_float y z ≡ true → lt_float z y ≡ false)
      → lt_float (cap_fraction max_pct) (max_float (float 0) (min_float x (cap_fraction max_pct)))
        ≡ false
  clamp_upper x max_pct irr asym =
      elim (Bool-cases (lt_float (float 0) (min_float x (cap_fraction max_pct)))) [
        | inl e ↦
            subst
              (λ b.
                lt_float (cap_fraction max_pct)
                  (if b then min_float x (cap_fraction max_pct) else float 0)
                ≡ false)
              (sym e) (min_float_upper x (cap_fraction max_pct) irr)
        | inr e ↦
            subst
              (λ b.
                lt_float (cap_fraction max_pct)
                  (if b then min_float x (cap_fraction max_pct) else float 0)
                ≡ false)
              (sym e) (max_float_lower (min_float (max_pct ⊘ float 100) (float 1)) irr asym)
      ]

  -- Where `<` on floats is irreflexive and asymmetric, the fraction of the capital is never negative
  -- and never above its cap, whatever the accuracy, the Kelly fraction and the maximal percentage.
  pub fraction_of_bounds :
      (max_pct kelly : F) (accuracy : Option F)
      → ((x : F) → lt_float x x ≡ false)
      → ((x y : F) → lt_float x y ≡ true → lt_float y x ≡ false)
      → (lt_float (fraction_of max_pct accuracy kelly) (float 0) ≡ false)
        × (lt_float (cap_fraction max_pct) (fraction_of max_pct accuracy kelly) ≡ false)
  unfolding fraction_of
  fraction_of_bounds max_pct kelly accuracy irr asym =
      (max_float_lower _ irr asym, clamp_upper _ max_pct irr asym)
