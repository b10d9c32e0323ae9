-- ===== src/Modeling/Tests.antt =====
-- Targets of a week, with whole numbers for floats.
use automated_stock_trading.Common.{
  ℕ, ◌+◌, ◌-◌, ◌*◌, ◌/◌, ◌≡◌, ◌==◌, refl, if◌then◌else◌, true, none, some, List, [], ◌∷◌, ltb, leb,
  map, sort_by, All, arith,
}
use automated_stock_trading.Floats.{Floats}
use automated_stock_trading.Folds.Arguments.{nonneg}
use automated_stock_trading.Search.Rows.{Task, regression}
use automated_stock_trading.Modeling.Targets.{
  weekday_anchored, horizon, exit_weekday, integer, boolean, ahead, direction, RawSpec, dict, error,
  small_integer, exit_not_after, ok, validate_spec, decision_filter, derive_target_date,
}
use automated_stock_trading.Modeling.Labels.{OhlcvRow, Label}
use automated_stock_trading.Modeling.Build.{build_target}
use automated_stock_trading.Modeling.Decisions.{IsForward, build_target_lem}

instance whole : Floats ℕ
whole = record {
  of_int = λ n. n;
  add = λ a b. a + b;
  sub = λ a b. a - b;
  mul = λ a b. a * b;
  div = λ a b. a / b;
  neg = λ a. 0 - a;
  lt = λ a b. ltb a b;
  le = λ a b. leb a b;
  is_finite = λ a. true;
  int_floor_div = λ a b. if b == 0 then none else some (a / b);
}

abbrev next_day : ℕ → ℕ
next_day ts = ts + 1

-- A Friday, the Monday before it and the Tuesday, out of order.
abbrev week : List (OhlcvRow ℕ)
week =
    record { timestamp = 11; close = 30 }
    ∷ record { timestamp = 7; close = 20 }
    ∷ record { timestamp = 8; close = 25 }
    ∷ []

abbrev weekly : RawSpec
weekly = dict (some weekday_anchored) (λ k. none)

build_target_lem_example :
    (rows : List (Label ℕ)) × (task : Task) × (build_target next_day weekly week (7 ∷ [])
      ≡ ok (rows, task))
    × (map (λ r. r.decision) rows ≡ 7 ∷ [])
    × All (IsForward next_day weekly) rows
unfolding whole decision_filter sort_by
build_target_lem_example =
    build_target_lem next_day weekly week (7 ∷ 8 ∷ []) (λ ts. omega arith)
      ((refl, (refl, tt)), ((refl, tt), (tt, tt))) refl

-- The Monday's label is the Friday's close.
weekly_labels :
    build_target next_day weekly week (7 ∷ [])
    ≡ ok (
      record { decision = 7; y = some (30 ∷ []); target_date = some 12; available_on = some 13 }
          ∷ [],
      regression,
    )
unfolding whole build_target
weekly_labels = refl

derived : derive_target_date weekly 8 ≡ ok (some 12)
unfolding derive_target_date
derived = refl

-- A Boolean is no integer, and the exit comes after the entry.
abbrev flag : RawSpec
flag = dict (some (ahead direction)) (λ k. elim k [ horizon ↦ some (boolean true) | _ ↦ none ])

abbrev backwards : RawSpec
backwards =
    dict (some weekday_anchored)
      (λ k. elim k [ exit_weekday ↦ some (integer (nonneg 0)) | _ ↦ none ])

refused_specs :
    (validate_spec flag ≡ error (small_integer horizon))
    × (validate_spec backwards ≡ error exit_not_after)
unfolding validate_spec
refused_specs = (refl, refl)
