-- ===== src/Cycle/Sales.antt =====
-- A SELL of the cycle offers the whole position.
use automated_stock_trading.Common.{
  ℕ, ◌≡◌, some, Option, Bool-cases, Option-cases, arith, inl, inr, ◌==◌,
}
use automated_stock_trading.Ledger.{
  Action, Side, filled, Order, World, Clock, Decimals, find_position,
}
use automated_stock_trading.Ledger.Positions.{IsUnique, units}
use automated_stock_trading.Broker.{Result, ok, raised}
use automated_stock_trading.Orders.{place_order}
use automated_stock_trading.Orders.Outcome.{Placed, place_order-Placed}
use automated_stock_trading.Cycle.{Strategy, determine_quantity, lifted, act_with, act_on}

-- If an order came of it and was filled, nothing of the instrument is left.
abbrev pub Closed : (account instrument : ℕ) → Result (Option Order) × World → Type 0
Closed a i (ok (some o), w) = o.status ≡ filled → units a i w.db.positions ≡ 0
Closed a i _ = Unit

Placed-Closed :
    (d : Decimals) (t : Clock) (i q : ℕ) (w : World) (r : Result Order × World)
    → units w.account.id i w.db.positions ≡ q
    → Placed d t i Side.sell q w r
    → Closed w.account.id i (lifted r)
Placed-Closed d t i q w (raised e, w') h p = tt
Placed-Closed d t i q w (ok o, w') h (inl p) = λ f. cc
Placed-Closed d t i q w (ok o, w') h
      (inr (k, (b, bar, fresh, c, price, amount, moved, others, trades))) =
    λ f. omega arith

-- A SELL that the cycle acts on leaves nothing of the instrument once it is filled.
pub act_on-Closed :
    (d : Decimals) (t : Clock) (g : Strategy) (i : ℕ) (w : World)
    → IsUnique w.db.positions
    → Closed w.account.id i (act_on d t g i Action.sell w)
unfolding act_on act_with determine_quantity units
act_on-Closed d t g i w u = elim (Option-cases (find_position w.account.id i w.db.positions)) [
  | inl e ↦ rw (e, determine_quantity) tt
  | inr (p, e) ↦
      rw (e, determine_quantity)
        (elim (Bool-cases (p.quantity == 0)) [
          | inl z ↦ rw z tt
          | inr z ↦ rw z (
              Placed-Closed d t i p.quantity w
                (place_order d t i Action.sell p.quantity (some g.id) w) (rw (e, units))
                (place_order-Placed d t i Action.sell p.quantity (some g.id) w u))
        ])
]
