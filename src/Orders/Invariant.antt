-- ===== src/Orders/Invariant.antt =====
-- Placing an order keeps the books, on every branch and also when it raises.
use automated_stock_trading.Common.{
  ℕ, ◌<◌, ◌≡◌, refl, Option, List, Bool-cases, Option-cases, inl, inr,
}
use automated_stock_trading.Ledger.{
  Action, Side, pending, blank, no_risk_price, Order, Db, World, Clock, Decimals, last_bar,
  create_order,
}
use automated_stock_trading.Ledger.Filing.{file_new, amount_of}
use automated_stock_trading.Risk.{evaluate}
use automated_stock_trading.Risk.Limits.{SameTrading, evaluate-SameTrading}
use automated_stock_trading.Broker.{Result, ok, raised}
use automated_stock_trading.Broker.Invariant.{IsBook, HasOrder, reject-IsBook, submit_via-IsBook}
use automated_stock_trading.Orders.{
  is_duplicate, new_order, vet_and_submit, place_side, notified, place_order,
}

SameTrading-HasOrder :
    (o : Order) (os : List Order) (x y : Db) → SameTrading x y → HasOrder o os x → HasOrder o os y
SameTrading-HasOrder o os x y s h = rw (s.positions, s.orders, s.next_order, s.trades) h

vet_and_submit-IsBook :
    (d : Decimals) (t : Clock) (o : Order) (os : List Order) (price : ℕ) (w : World)
    → 0 < o.quantity
    → HasOrder o os w.db
    → IsBook (vet_and_submit d t o price w).1.db
unfolding vet_and_submit
vet_and_submit-IsBook d t o os price w pos h =
    let (approved, why, db') =
      evaluate d t w.account o.instrument o.side o.quantity price o.strategy w.db in
    let kept : HasOrder o os db' =
      SameTrading-HasOrder o os w.db db'
        (evaluate-SameTrading d t w.account o.instrument o.side o.quantity price o.strategy w.db)
        h in
    elim (Bool-cases approved) [
      | inl e ↦ rw e (submit_via-IsBook w.account.broker d t o os (record w { db = db' }) pos kept)
      | inr e ↦ rw e (reject-IsBook o o os why (record w { db = db' }) refl kept)
    ]

create_order-HasOrder :
    (o : Order) (db : Db)
    → o.id ≡ db.next_order
    → amount_of o.status o.quantity ≡ 0
    → IsBook db
    → HasOrder o db.orders (create_order o db)
unfolding create_order
create_order-HasOrder o db e z b =
    (b.0, refl, z, file_new db.next_order o db.orders db.trades e z b.1)

place_side-IsBook :
    (d : Decimals) (t : Clock) (i : ℕ) (s : Side) (q : ℕ) (g : Option ℕ) (w : World)
    → 0 < q
    → IsBook w.db
    → IsBook (place_side d t i s q g w).1.db
unfolding place_side create_order new_order
place_side-IsBook d t i s q g w pos b =
    let o = new_order t w.db w.account.id i g s q pending blank in
    let w' = record w { db = create_order o w.db } in
    let kept = create_order-HasOrder o w.db refl refl b in
    elim (Bool-cases (is_duplicate t.now w.account.id i s w.db)) [
      | inl e ↦
          rw (e, place_side) (b.0, file_new w.db.next_order _ w.db.orders w.db.trades refl refl b.1)
      | inr e ↦
          rw (e, place_side)
            (elim (Option-cases (last_bar i w.db.bars)) [
              | inl n ↦ rw n (reject-IsBook o o w.db.orders no_risk_price w' refl kept)
              | inr (bar, n) ↦ rw n (vet_and_submit-IsBook d t o w.db.orders bar.close w' pos kept)
            ])
    ]

notified-IsBook : (r : Result Order) (w : World) → IsBook w.db → IsBook (notified (r, w)).1.db
unfolding notified
notified-IsBook (ok o) w b = b
notified-IsBook (raised e) w b = b

-- Placing an order of a positive quantity keeps the books, whether it is filled, rejected or raises.
pub place_order-IsBook :
    (d : Decimals) (t : Clock) (i : ℕ) (a : Action) (q : ℕ) (g : Option ℕ) (w : World)
    → 0 < q
    → IsBook w.db
    → IsBook (place_order d t i a q g w).1.db
unfolding place_order
place_order-IsBook d t i Action.hold q g w pos b = b
place_order-IsBook d t i Action.buy q g w pos b =
    let (r, w') = place_side d t i Side.buy q g w in
    notified-IsBook r w' (place_side-IsBook d t i Side.buy q g w pos b)
place_order-IsBook d t i Action.sell q g w pos b =
    let (r, w') = place_side d t i Side.sell q g w in
    notified-IsBook r w' (place_side-IsBook d t i Side.sell q g w pos b)
