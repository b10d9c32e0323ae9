-- ===== src/Broker/Record.antt =====
-- The row of a submitted order: the returned order is the one stored, in place of the row it had, and
-- no older row is touched.
use automated_stock_trading.Common.{ℕ, ◌≡◌, ◌∙◌, some, List, ◌∷◌, arith, Option-cases, inl, inr}
use automated_stock_trading.Ledger.{
  submitted, rejected, no_fill_price, insufficient_funds, insufficient_position, Reason, Order, Db,
  World, Clock, Decimals, Broker, paper, unregistered, last_bar, replace_order, save_order,
  create_trade,
}
use automated_stock_trading.Broker.{
  Result, ok, raised, funds, position_short, Fill, atomic, fill, settle, submit_order, submit_via,
  reject,
}
use automated_stock_trading.Broker.Frame.{SameOrders, fill-SameOrders}

-- The two orders are the same request.
pub record SameRequest (o o' : Order) : Type 0 where
  pub id : o'.id ≡ o.id
  pub account : o'.account ≡ o.account
  pub instrument : o'.instrument ≡ o.instrument
  pub strategy : o'.strategy ≡ o.strategy
  pub side : o'.side ≡ o.side
  pub quantity : o'.quantity ≡ o.quantity
  pub created_at : o'.created_at ≡ o.created_at

abbrev pub Recorded : Order → List Order → Result Order × World → Type 0
Recorded o os (ok o', w) = SameRequest o o' × (w.db.orders ≡ o' ∷ os)
Recorded o os (raised e, w) = w.db.orders ≡ o ∷ os

replace_order-head :
    (o o' : Order) (os : List Order) → o'.id ≡ o.id → replace_order o' (o ∷ os) ≡ o' ∷ os
unfolding replace_order
replace_order-head o o' os e = ground arith

pub reject-Recorded :
    (o o' : Order) (os : List Order) (why : Reason) (w : World)
    → SameRequest o o'
    → w.db.orders ≡ o ∷ os
    → Recorded o os (reject o' why w)
unfolding reject save_order
reject-Recorded o o' os why w s top = (
  ground arith,
  rw top (replace_order-head o (record o' { status = rejected; rejection_reason = why }) os s.id),
)

settle-Recorded :
    (t : Clock) (o o' : Order) (os : List Order) (price : ℕ) (db : Db) (f : Fill)
    → SameRequest o o'
    → db.orders ≡ o ∷ os
    → SameOrders db f.1.db
    → Recorded o os (settle t o' price (atomic db f))
unfolding settle atomic save_order create_trade
settle-Recorded t o o' os price db (ok u, w) s top k =
    (ground arith, rw (k.orders ∙ top) (replace_order-head o _ os s.id))
settle-Recorded t o o' os price db (raised funds, w) s top k =
    reject-Recorded o o' os insufficient_funds (record w { db = db }) s top
settle-Recorded t o o' os price db (raised position_short, w) s top k =
    reject-Recorded o o' os insufficient_position (record w { db = db }) s top
settle-Recorded t o o' os price db (raised _, w) s top k = top

pub submit_via-Recorded :
    (br : Broker) (d : Decimals) (t : Clock) (o : Order) (os : List Order) (w : World)
    → w.db.orders ≡ o ∷ os
    → Recorded o os (submit_via br d t o w)
unfolding submit_via submit_order
submit_via-Recorded unregistered d t o os w top = top
submit_via-Recorded paper d t o os w top =
    let o' = record o { status = submitted; submitted_at = some t.now } in
    let same : SameRequest o o' = ground arith in
    elim (Option-cases (last_bar o.instrument w.db.bars)) [
      | inl e ↦ rw (e, submit_order) (reject-Recorded o o' os no_fill_price w same top)
      | inr (b, e) ↦
          rw (e, submit_order)
            (settle-Recorded t o o' os b.close w.db (fill d o' b.close w) same top
              (fill-SameOrders d o' b.close w))
    ]
