-- ===== src/Feed/Gate.antt =====
-- The quality gate: signalfeed/gate.py.
use automated_stock_trading.Common.{
  ℕ, ◌≡◌, ◌↔◌, Bool, true, false, Option, none, some, List, [], ◌∷◌, ltb, ◌==◌, ◌&&◌, if◌then◌else◌,
  Bool-cases, refl, Option-cases, inl, inr,
}
use automated_stock_trading.Floats.{Floats, lt_float, float}
use automated_stock_trading.Feed.Rows.{
  GateReason, no_model, inactive, untrained, no_stats, no_accuracy, low_accuracy, no_skill,
  low_skill, passed_gate, Stats, BoardRow, TradingModel, WatchItem,
}

-- `GateResult`
pub record GateResult (F : Type 0) : Type 0 where
  pub passed : Bool
  pub reason : GateReason
  pub stats : Option (Stats F)

module _ {F : Type 0} where
  -- The loop over `board.ranked`.
  unfoldable pub ranked_stats : ℕ → List (BoardRow F) → Option (Stats F)
  ranked_stats m [] = none
  ranked_stats m (r ∷ rs) =
      let rest = ranked_stats m rs in
      if r.model == m && ltb 0 r.n
      then some (record {
        is_live = true;
        directional_accuracy = r.directional_accuracy;
        skill = r.skill;
      })
      else rest

  -- `_live_stats`; without a board, it tries to build one, which may raise.
  unfoldable pub live_stats :
      (built : Option (List (BoardRow F)))
      → TradingModel F
      → Option (List (BoardRow F))
      → Option (Stats F)
  unfolding ranked_stats
  live_stats built m (some board) = ranked_stats m.id board
  live_stats (some board) m none = ranked_stats m.id board
  live_stats none m none = none

  -- `_live_stats(...) or _holdout_stats(...)`
  unfoldable pub stats_of :
      Option (List (BoardRow F)) → TradingModel F → Option (List (BoardRow F)) → Option (Stats F)
  unfolding live_stats
  stats_of built m board = elim (live_stats built m board) [ none ↦ m.holdout | some s ↦ some s ]

module _ {F : Type 0} ⦃f : Floats F⦄ where
  -- The last test of `evaluate_gate`, on the skill.
  unfoldable pub gate_skill : F → Stats F → GateResult F
  gate_skill min_skill s =
      if lt_float (float 0) min_skill
      then (elim s.skill [
        | none ↦ record { passed = false; reason = no_skill; stats = some s }
        | some k ↦
            if lt_float k min_skill
            then record { passed = false; reason = low_skill; stats = some s }
            else record { passed = true; reason = passed_gate; stats = some s }
      ])
      else record { passed = true; reason = passed_gate; stats = some s }

  -- The tests on the accuracy, once there are stats.
  unfoldable pub gate_stats : WatchItem F → Stats F → GateResult F
  unfolding gate_skill
  gate_stats item s = elim s.directional_accuracy [
    | none ↦ record { passed = false; reason = no_accuracy; stats = some s }
    | some a ↦
        if lt_float a item.min_directional_accuracy
        then record { passed = false; reason = low_accuracy; stats = some s }
        else gate_skill item.min_skill s
  ]

  -- The tests on the model, from whether it is active, whether it is trained, and its stats.
  abbrev pub gate_model :
      (is_active has_artifact : Bool) → WatchItem F → Option (Stats F) → GateResult F
  gate_model false _ item _ = record { passed = false; reason = inactive; stats = none }
  gate_model true false item _ = record { passed = false; reason = untrained; stats = none }
  gate_model true true item none = record { passed = false; reason = no_stats; stats = none }
  gate_model true true item (some s) = gate_stats item s

  -- `evaluate_gate`; the model is an option, as its check for `None` has it.
  unfoldable pub evaluate_gate :
      Option (List (BoardRow F))
      → WatchItem F
      → Option (TradingModel F)
      → Option (List (BoardRow F))
      → GateResult F
  unfolding stats_of gate_stats
  evaluate_gate built item none board = record { passed = false; reason = no_model; stats = none }
  evaluate_gate built item (some m) board =
      gate_model m.is_active m.has_artifact item (stats_of built m board)

  -- A figure that is there and not below its bar.
  abbrev pub IsAtLeast : F → Option F → Type 0
  IsAtLeast bar none = ⊥
  IsAtLeast bar (some a) = lt_float a bar ≡ false

  -- What clears the bar of a watch item.
  abbrev pub Clears : WatchItem F → Option (Stats F) → Type 0
  Clears item none = ⊥
  Clears item (some s) =
      IsAtLeast item.min_directional_accuracy s.directional_accuracy
      × (lt_float (float 0) item.min_skill ≡ true → IsAtLeast item.min_skill s.skill)

  gate_skill_iff :
      (bar : F) (s : Stats F)
      → ((gate_skill bar s).passed ≡ true) ↔ (lt_float (float 0) bar ≡ true → IsAtLeast bar s.skill)
  unfolding gate_skill
  gate_skill_iff bar s = elim (Bool-cases (lt_float (float 0) bar)) [
    | inl e ↦ elim (Option-cases s.skill) [
      | inl n ↦ rw (e, n, gate_skill) (λ h. λ u. absurd cc, λ h. absurd (h refl))
      | inr (k, n) ↦ elim (Bool-cases (lt_float k bar)) [
        | inl z ↦ rw (e, n, z, gate_skill) (λ h. λ u. absurd cc, λ h. absurd (cc (h refl)))
        | inr z ↦ rw (e, n, z, gate_skill) (λ h. λ u. refl, λ h. refl)
      ]
    ]
    | inr e ↦ rw (e, gate_skill) (λ h. λ u. absurd cc, λ h. refl)
  ]

  gate_stats_iff :
      (item : WatchItem F) (s : Stats F)
      → ((gate_stats item s).passed ≡ true) ↔ Clears item (some s)
  unfolding gate_stats
  gate_stats_iff item s = elim (Option-cases s.directional_accuracy) [
    | inl n ↦ rw (n, gate_stats) (λ h. absurd cc, λ h. absurd h.0)
    | inr (a, n) ↦ elim (Bool-cases (lt_float a item.min_directional_accuracy)) [
      | inl z ↦ rw (n, z, gate_stats) (λ h. absurd cc, λ h. absurd cc)
      | inr z ↦
          rw (n, z, gate_stats)
            (
              λ h. (refl, (gate_skill_iff item.min_skill s).0 h),
              λ h. (gate_skill_iff item.min_skill s).1 h.1,
            )
    ]
  ]

  gate_model_iff :
      (x y : Bool) (item : WatchItem F) (s : Option (Stats F))
      → ((gate_model x y item s).passed ≡ true) ↔ ((x ≡ true) × (y ≡ true) × Clears item s)
  gate_model_iff false y item s = (λ h. absurd cc, λ h. absurd cc)
  gate_model_iff true false item s = (λ h. absurd cc, λ h. absurd cc)
  gate_model_iff true true item none = (λ h. absurd cc, λ h. absurd h.2)
  gate_model_iff true true item (some s) =
      (λ h. (refl, refl, (gate_stats_iff item s).0 h), λ h. (gate_stats_iff item s).1 h.2)

  -- The whole gate, by the figures that it finds.
  pub evaluate_gate-Clears :
      (built : Option (List (BoardRow F))) (item : WatchItem F) (m : TradingModel F)
      (board : Option (List (BoardRow F)))
      → ((evaluate_gate built item (some m) board).passed ≡ true)
        ↔ ((m.is_active ≡ true) × (m.has_artifact ≡ true) × Clears item (stats_of built m board))
  unfolding evaluate_gate
  evaluate_gate-Clears built item m board =
      gate_model_iff m.is_active m.has_artifact item (stats_of built m board)
