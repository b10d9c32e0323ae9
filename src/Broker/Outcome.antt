-- ===== src/Broker/Outcome.antt =====
-- What `PaperBroker.submit_order` and `cancel_order` achieve, on every branch.
use automated_stock_trading.Common.{◌≡◌, ◌⊎◌, refl, some, ◌∷◌, arith, Option-cases, inl, inr}
use automated_stock_trading.Ledger.{
  submitted, filled, rejected, Order, Db, World, Clock, Decimals, PriceBar, last_bar, save_order,
  create_trade,
}
use automated_stock_trading.Ledger.Positions.{IsUnique}
use automated_stock_trading.Broker.{
  Result, ok, raised, funds, position_short, Fill, atomic, fill, settle, submit_order,
}
use automated_stock_trading.Broker.Fills.{Traded-orders}
use automated_stock_trading.Broker.Frame.{SameOrders, fill-SameOrders, Exchanged, fill-Exchanged}

-- Cash, positions and trades of two databases are the same.
pub record SameBooks (x y : Db) : Type 0 where
  pub accounts : y.accounts ≡ x.accounts
  pub positions : y.positions ≡ x.positions
  pub trades : y.trades ≡ x.trades

-- How a submitted order may end. Filled: at the latest close, with exactly its exchange booked, one
-- trade written and the whole quantity filled. Rejected, or on an exception: nothing moved.
abbrev pub Ended : Decimals → Clock → Order → World → Result Order × World → Type 0
Ended d t o w (raised e, w') = SameBooks w.db w'.db
Ended d t o w (ok o', w') =
    ((o'.status ≡ rejected) × SameBooks w.db w'.db)
    ⊎ ((b : PriceBar) × (last_bar o.instrument w.db.bars ≡ some b)
        × (o'.status ≡ filled)
        × (o'.filled_price ≡ some b.close)
        × (o'.filled_quantity ≡ o.quantity)
        × Exchanged d o b.close w w'.db
        × (w'.db.trades
            ≡ record { order = o.id; quantity = o.quantity; price = b.close; executed_at = t.now }
              ∷ w.db.trades))

module _ (d : Decimals) (t : Clock) (o : Order) (b : PriceBar) (w : World)
    (bar : last_bar o.instrument w.db.bars ≡ some b) where
  settle-Ended :
      (o' : Order) (f : Fill)
      → o'.id ≡ o.id
      → o'.quantity ≡ o.quantity
      → (f.0 ≡ ok tt → Exchanged d o b.close w f.1.db)
      → SameOrders w.db f.1.db
      → Ended d t o w (settle t o' b.close (atomic w.db f))
  unfolding settle atomic save_order create_trade
  settle-Ended o' (ok u, w') i q x s =
      let moved = x refl in
      inr (
        b,
        bar,
        refl,
        refl,
        q,
        (
          Traded-orders o.side d w.account.id o.instrument o.quantity b.close w.db w'.db _ _
              moved.0,
          moved.1,
        ),
        ground arith,
      )
  settle-Ended o' (raised funds, w') i q x s =
      inl (refl, record { accounts = refl; positions = refl; trades = refl })
  settle-Ended o' (raised position_short, w') i q x s =
      inl (refl, record { accounts = refl; positions = refl; trades = refl })
  settle-Ended o' (raised _, w') i q x s = record {
    accounts = refl;
    positions = refl;
    trades = refl;
  }

-- Every submitted order ends in one of the ways of `Ended`, if the positions have one row for each
-- account and instrument.
pub submit_order-Ended :
    (d : Decimals) (t : Clock) (o : Order) (w : World)
    → IsUnique w.db.positions
    → Ended d t o w (submit_order d t o w)
unfolding submit_order save_order
submit_order-Ended d t o w u = elim (Option-cases (last_bar o.instrument w.db.bars)) [
  | inl e ↦
      rw (e, submit_order) (inl (refl, record { accounts = refl; positions = refl; trades = refl }))
  | inr (b, e) ↦
      let o' = record o { status = submitted; submitted_at = some t.now } in
      rw (e, submit_order)
        (settle-Ended d t o b w e o' (fill d o' b.close w) refl refl
          (λ done. fill-Exchanged d o' b.close w u done) (fill-SameOrders d o' b.close w))
]
