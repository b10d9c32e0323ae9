-- ===== src/Broker.antt =====
-- The simulated broker: execution/brokers/paper.py, and the table of brokers/__init__.py. A call takes
-- and returns the world: the account object in memory and the database.
pub mod Fills
pub mod Frame
pub mod Outcome
pub mod Record
pub mod Invariant
mod Tests
use automated_stock_trading.Common.{ℕ, ◌+◌, ◌-◌, ◌*◌, none, some, ltb, ◌==◌, if◌then◌else◌}
use automated_stock_trading.Ledger.{
  Side, submitted, filled, rejected, cancelled, pending, Broker, paper, unregistered, Reason,
  no_fill_price, insufficient_funds, insufficient_position, Account, Position, Order, Db, World,
  Clock, Decimals, last_bar, find_position, save_position, delete_position, refresh_from_db,
  save_cash, save_order, create_trade,
}

-- What may be raised: the two exceptions that `submit_order` catches, `DoesNotExist` of an account row
-- that is gone, the `ValueError`s of the callers, and what a strategy or its parameters raise.
pub data Error : Type 0 where
  funds position_short : Error
  account_missing broker_unknown hold_order : Error
  strategy_failed quantity_malformed : Error

pub data Result (A : Type 0) : Type 0 where
  ok : A → Result A
  raised : Error → Result A

-- A fill that returned, or the exception that it raised; the world is the one reached.
abbrev pub Fill : Type 0
Fill = Result (Unit {0}) × World

-- The weighted average entry price after a purchase, `total_cost / position.quantity`.
unfoldable pub grow_position : Decimals → Position → (quantity price : ℕ) → Position
grow_position d p quantity price = record p {
  quantity = p.quantity + quantity;
  avg_entry_price =
      d.store_price (p.avg_entry_price * p.quantity + price * quantity) (p.quantity + quantity);
}

-- `get_or_create` of the position, and its update if it was there.
unfoldable pub book_purchase : Decimals → Account → Order → ℕ → Db → Db
unfolding grow_position
book_purchase d a o price db = record db {
  positions =
      save_position
        (elim (find_position a.id o.instrument db.positions) [
          | none ↦ record {
            account = a.id;
            instrument = o.instrument;
            quantity = o.quantity;
            avg_entry_price = price;
          }
          | some p ↦ grow_position d p o.quantity price
        ])
        db.positions;
}

-- `_fill_buy`
unfoldable pub fill_buy : Decimals → Order → ℕ → World → Fill
unfolding book_purchase
fill_buy d o price w =
    let cost = price * o.quantity in
    elim (refresh_from_db w.account w.db) [
      | none ↦ (raised account_missing, w)
      | some a ↦
          if ltb a.cash_balance cost
          then (raised funds, record w { account = a })
          else (let paid = record a { cash_balance = a.cash_balance - cost } in
              (
                ok tt,
                record {
                  account = paid;
                  db = book_purchase d paid o price (save_cash d paid w.db);
                },
              ))
    ]

-- The position after a sale: gone if nothing is left.
unfoldable pub book_sale : Account → Order → Position → Db → Db
book_sale a o p db = record db {
  positions =
      if p.quantity - o.quantity == 0
      then delete_position a.id o.instrument db.positions
      else save_position (record p { quantity = p.quantity - o.quantity }) db.positions;
}

-- `_fill_sell`
unfoldable pub fill_sell : Decimals → Order → ℕ → World → Fill
unfolding book_sale
fill_sell d o price w = elim (find_position w.account.id o.instrument w.db.positions) [
  | none ↦ (raised position_short, w)
  | some p ↦
      if ltb p.quantity o.quantity
      then (raised position_short, w)
      else (elim (refresh_from_db w.account w.db) [
        | none ↦ (raised account_missing, w)
        | some a ↦
            let paid = record a { cash_balance = a.cash_balance + price * o.quantity } in
            (ok tt, record { account = paid; db = book_sale paid o p (save_cash d paid w.db) })
      ])
]

-- `with transaction.atomic()`: an exception restores the database, and not the object in memory.
unfoldable pub atomic : Db → Fill → Fill
atomic before (ok u, w) = (ok u, w)
atomic before (raised e, w) = (raised e, record w { db = before })

-- The branch of `submit_order` on the side.
unfoldable pub fill_side : Side → Decimals → Order → ℕ → World → Fill
unfolding fill_buy fill_sell
fill_side Side.buy d o price w = fill_buy d o price w
fill_side Side.sell d o price w = fill_sell d o price w

unfoldable pub fill : Decimals → Order → ℕ → World → Fill
unfolding fill_side
fill d o price w = fill_side o.side d o price w

-- `_reject`, here and in execution/services.py.
unfoldable pub reject : Order → Reason → World → Result Order × World
reject o why w =
    let o' = record o { status = rejected; rejection_reason = why } in
    (ok o', record w { db = save_order o' w.db })

-- The end of `submit_order`: the order is saved as filled, and its trade is written.
unfoldable pub complete : Clock → Order → ℕ → World → Result Order × World
complete t o price w =
    let o' = record o {
      status = filled;
      filled_quantity = o.quantity;
      filled_price = some price;
      filled_at = some t.now;
    } in
    (
      ok o',
      record w {
        db =
            create_trade
              (record { order = o.id; quantity = o.quantity; price = price; executed_at = t.now })
              (save_order o' w.db);
      },
    )

-- What follows the `with` block: the two `except` clauses, or the end of the call.
unfoldable pub settle : Clock → Order → ℕ → Fill → Result Order × World
unfolding reject complete
settle t o price (ok u, w) = complete t o price w
settle t o price (raised funds, w) = reject o insufficient_funds w
settle t o price (raised position_short, w) = reject o insufficient_position w
settle t o price (raised e, w) = (raised e, w)

-- `PaperBroker.submit_order`
unfoldable pub submit_order : Decimals → Clock → Order → World → Result Order × World
unfolding fill settle atomic
submit_order d t o w =
    let o' = record o { status = submitted; submitted_at = some t.now } in
    elim (last_bar o.instrument w.db.bars) [
      | none ↦ reject o' no_fill_price w
      | some b ↦ settle t o' b.close (atomic w.db (fill d o' b.close w))
    ]

-- `PaperBroker.cancel_order`
unfoldable pub cancel_order : Order → Db → Order × Db
cancel_order o db = elim o.status [
  | pending ↦ let o' = record o { status = cancelled } in (o', save_order o' db)
  | submitted ↦ let o' = record o { status = cancelled } in (o', save_order o' db)
  | _ ↦ (o, db)
]

-- `get_broker(account).submit_order(order)`
unfoldable pub submit_via : Broker → Decimals → Clock → Order → World → Result Order × World
unfolding submit_order
submit_via paper d t o w = submit_order d t o w
submit_via unregistered d t o w = (raised broker_unknown, w)
