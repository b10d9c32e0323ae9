-- ===== src/Broker/Invariant.antt =====
-- The invariant of the books, and that a submission keeps it.
use automated_stock_trading.Common.{ℕ, ◌<◌, ◌≡◌, ◌∙◌, refl, some, List, ◌∷◌, Option-cases, inl, inr}
use automated_stock_trading.Ledger.{
  submitted, rejected, no_fill_price, insufficient_funds, insufficient_position, Reason, Order, Db,
  World, Clock, Decimals, Broker, paper, unregistered, last_bar, save_order, create_trade,
}
use automated_stock_trading.Ledger.Filing.{IsFiled, amount_of, file_refused, file_filled}
use automated_stock_trading.Broker.{
  ok, raised, funds, position_short, Fill, atomic, fill, settle, submit_order, submit_via, reject,
}
use automated_stock_trading.Broker.Frame.{IsTidy, SameOrders, fill-IsTidy, fill-SameOrders}

-- One open row for each account and instrument; orders numbered in order; each filled order traded
-- exactly its quantity, and no other order traded anything.
abbrev pub IsBook : Db → Type 0
IsBook db = IsTidy db × IsFiled db.next_order db.orders db.trades

-- The database once the newest order `o` has its row, and has traded nothing.
abbrev pub HasOrder : Order → List Order → Db → Type 0
HasOrder o os db =
    IsTidy db
    × (db.orders ≡ o ∷ os)
    × (amount_of o.status o.quantity ≡ 0)
    × IsFiled db.next_order (o ∷ os) db.trades

pub reject-IsBook :
    (o o' : Order) (os : List Order) (why : Reason) (w : World)
    → o'.id ≡ o.id
    → HasOrder o os w.db
    → IsBook (reject o' why w).1.db
unfolding reject save_order
reject-IsBook o o' os why w e (tidy, top, z, f) = (
  tidy,
  rw top (
      file_refused w.db.next_order o (record o' { status = rejected; rejection_reason = why }) os
        w.db.trades e z refl f),
)

settle-IsBook :
    (t : Clock) (o o' : Order) (os : List Order) (price : ℕ) (db : Db) (f : Fill)
    → o'.id ≡ o.id
    → HasOrder o os db
    → IsTidy f.1.db
    → SameOrders db f.1.db
    → IsBook (settle t o' price (atomic db f)).1.db
unfolding settle atomic save_order create_trade
settle-IsBook t o o' os price db (ok u, w) e (tidy, top, z, g) k s = (
  k,
  rw (s.orders ∙ top, s.next_order, s.trades)
      (file_filled db.next_order o _ _ os db.trades e e z refl g),
)
settle-IsBook t o o' os price db (raised funds, w) e h k s =
    reject-IsBook o o' os insufficient_funds (record w { db = db }) e h
settle-IsBook t o o' os price db (raised position_short, w) e h k s =
    reject-IsBook o o' os insufficient_position (record w { db = db }) e h
settle-IsBook t o o' os price db (raised _, w) e (tidy, top, z, g) k s = (tidy, rw top g)

pub submit_order-IsBook :
    (d : Decimals) (t : Clock) (o : Order) (os : List Order) (w : World)
    → 0 < o.quantity
    → HasOrder o os w.db
    → IsBook (submit_order d t o w).1.db
unfolding submit_order
submit_order-IsBook d t o os w pos h =
    let o' = record o { status = submitted; submitted_at = some t.now } in
    elim (Option-cases (last_bar o.instrument w.db.bars)) [
      | inl e ↦ rw (e, submit_order) (reject-IsBook o o' os no_fill_price w refl h)
      | inr (b, e) ↦
          rw (e, submit_order)
            (settle-IsBook t o o' os b.close w.db (fill d o' b.close w) refl h
              (fill-IsTidy d o' b.close w pos h.0) (fill-SameOrders d o' b.close w))
    ]

pub submit_via-IsBook :
    (br : Broker) (d : Decimals) (t : Clock) (o : Order) (os : List Order) (w : World)
    → 0 < o.quantity
    → HasOrder o os w.db
    → IsBook (submit_via br d t o w).1.db
unfolding submit_via
submit_via-IsBook paper d t o os w pos h = submit_order-IsBook d t o os w pos h
submit_via-IsBook unregistered d t o os w pos (tidy, top, z, g) = (tidy, rw top g)
