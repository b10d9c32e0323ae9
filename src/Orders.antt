-- ===== src/Orders.antt =====
-- Placing an order: execution/services.py, and its hand-over to execution/notifications.py.
pub mod Invariant
pub mod Outcome
pub mod Record
pub mod Filled
mod Tests
use automated_stock_trading.Common.{
  ℕ, ◌+◌, Bool, ◌&&◌, Option, none, some, List, ◌∷◌, leb, ◌==◌, true, false, if◌then◌else◌, exists,
}
use automated_stock_trading.Ledger.{
  Action, Side, Status, pending, filled, rejected, cancelled, Reason, blank, duplicate_guard,
  no_risk_price, Order, Alert, order_filled, order_rejected, Db, World, Clock, Decimals, last_bar,
  create_order,
}
use automated_stock_trading.Risk.{evaluate}
use automated_stock_trading.Broker.{Result, ok, raised, hold_order, reject, submit_via}

-- `DUPLICATE_ORDER_WINDOW`, five minutes, with moments counted in microseconds.
abbrev pub duplicate_order_window : ℕ
duplicate_order_window = 300_000_000

abbrev pub same_side : Side → Side → Bool
same_side Side.buy Side.buy = true
same_side Side.sell Side.sell = true
same_side _ _ = false

-- The statuses that `_is_duplicate` excludes.
abbrev pub is_dead : Status → Bool
is_dead rejected = true
is_dead cancelled = true
is_dead _ = false

-- Whether a row is one that the guard's query finds; `created_at >= now - window`.
abbrev pub is_match : ℕ → (account instrument : ℕ) → Side → Order → Bool
is_match now a i side o =
    o.account == a
    && o.instrument == i
    && same_side o.side side
    && leb now (o.created_at + duplicate_order_window)
    && (if is_dead o.status then false else true)

-- `_is_duplicate`
unfoldable pub is_duplicate : ℕ → (account instrument : ℕ) → Side → Db → Bool
is_duplicate now a i side db = exists (is_match now a i side) db.orders

-- The fields of a new order, as `Order.objects.create` fills them.
unfoldable pub new_order :
    Clock → Db → (account instrument : ℕ) → Option ℕ → Side → ℕ → Status → Reason → Order
new_order t db a i strategy side quantity status why = record {
  id = db.next_order;
  account = a;
  instrument = i;
  strategy = strategy;
  side = side;
  quantity = quantity;
  status = status;
  filled_quantity = 0;
  filled_price = none;
  rejection_reason = why;
  submitted_at = none;
  filled_at = none;
  created_at = t.now;
}

-- From the risk evaluation on, once the order's row is there.
unfoldable pub vet_and_submit : Decimals → Clock → Order → ℕ → World → Result Order × World
vet_and_submit d t o price w =
    let (approved, why, db') =
      evaluate d t w.account o.instrument o.side o.quantity price o.strategy w.db in
    let w' = record w { db = db' } in
    if approved then submit_via w.account.broker d t o w' else reject o why w'

-- `_place_order` at a side that is not HOLD.
unfoldable pub place_side :
    Decimals → Clock → ℕ → Side → ℕ → Option ℕ → World → Result Order × World
unfolding is_duplicate new_order vet_and_submit
place_side d t i side quantity strategy w =
    let a = w.account.id in
    if is_duplicate t.now a i side w.db
    then (let o = new_order t w.db a i strategy side quantity rejected duplicate_guard in
        (ok o, record w { db = create_order o w.db }))
    else (let o = new_order t w.db a i strategy side quantity pending blank in
        let w' = record w { db = create_order o w.db } in
        elim (last_bar i w.db.bars) [
          | none ↦ reject o no_risk_price w'
          | some b ↦ vet_and_submit d t o b.close w'
        ])

-- `_notify`: the alert that is sent, if any.
unfoldable pub alerts_after : Order → List Alert → List Alert
alerts_after o sent = elim o.status [
  | filled ↦ order_filled o.id o.filled_price ∷ sent
  | rejected ↦ order_rejected o.id o.rejection_reason ∷ sent
  | _ ↦ sent
]

unfoldable pub notify : Order → Db → Db
unfolding alerts_after
notify o db = record db { alerts = alerts_after o db.alerts }

-- `place_order` after `_place_order` has ended.
unfoldable pub notified : Result Order × World → Result Order × World
unfolding notify
notified (ok o, w) = (ok o, record w { db = notify o w.db })
notified (raised e, w) = (raised e, w)

-- `place_order`
unfoldable pub place_order :
    Decimals → Clock → ℕ → Action → ℕ → Option ℕ → World → Result Order × World
unfolding place_side notified
place_order d t i Action.hold quantity strategy w = (raised hold_order, w)
place_order d t i Action.buy quantity strategy w =
    notified (place_side d t i Side.buy quantity strategy w)
place_order d t i Action.sell quantity strategy w =
    notified (place_side d t i Side.sell quantity strategy w)
