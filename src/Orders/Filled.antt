-- ===== src/Orders/Filled.antt =====
-- When an order is filled: the way through the guard, the checks and the broker.
use automated_stock_trading.Common.{ℕ, ◌*◌, ◌≤◌, ◌≡◌, refl, some, Option, false, true, arith}
use automated_stock_trading.Ledger.{
  Side, filled, pending, submitted, equity, blank, Order, PriceBar, Position, Account, Db, World,
  Clock, Decimals, paper, Broker, unregistered, last_bar, find_position, create_order,
  refresh_from_db,
}
use automated_stock_trading.Risk.{evaluate, risk_profile}
use automated_stock_trading.Risk.Limits.{Checked, SameTrading, evaluate-SameTrading, evaluate_iff}
use automated_stock_trading.Broker.{
  Result, ok, raised, Fill, fill, fill_side, fill_buy, fill_sell, settle, atomic, submit_order,
  submit_via, complete,
}
use automated_stock_trading.Orders.{
  is_duplicate, new_order, vet_and_submit, place_side, notified, place_order,
}
use automated_stock_trading.Orders.Record.{action_of}
use automated_stock_trading.Orders.Outcome.{opening-create_order}

-- The order was filled.
abbrev pub IsDone : Result Order → Type 0
IsDone (ok o) = o.status ≡ filled
IsDone (raised e) = ⊥

-- The row of the account is there and its cash covers a purchase, or the position covers a sale.
abbrev pub IsCovered : Side → (account instrument quantity price : ℕ) → Db → Type 0
IsCovered Side.buy a i q price db =
    (r : Account) × (db.accounts a ≡ some r) × (price * q ≤ r.cash_balance)
IsCovered Side.sell a i q price db =
    (r : Account) × (db.accounts a ≡ some r)
    × ((p : Position) × (find_position a i db.positions ≡ some p) × (q ≤ p.quantity))

fill_side_covered :
    (s : Side) (d : Decimals) (o : Order) (price : ℕ) (w : World)
    → IsCovered s w.account.id o.instrument o.quantity price w.db
    → (fill_side s d o price w).0 ≡ ok tt
unfolding fill_side fill_buy fill_sell refresh_from_db
fill_side_covered Side.buy d o price w (r, e, h) = rw (e, fill_buy, refresh_from_db) (ground arith)
fill_side_covered Side.sell d o price w (r, e, (p, f, h)) =
    rw (f, e, fill_sell, refresh_from_db) (ground arith)

settle-IsDone :
    (t : Clock) (o : Order) (price : ℕ) (x : Db) (f : Fill)
    → f.0 ≡ ok tt
    → IsDone (settle t o price (atomic x f)).0
unfolding settle atomic complete
settle-IsDone t o price x (ok u, w) e = refl
settle-IsDone t o price x (raised k, w) e = absurd cc

submit_order-IsDone :
    (d : Decimals) (t : Clock) (o : Order) (w : World) (b : PriceBar)
    → last_bar o.instrument w.db.bars ≡ some b
    → IsCovered o.side w.account.id o.instrument o.quantity b.close w.db
    → IsDone (submit_order d t o w).0
unfolding submit_order fill
submit_order-IsDone d t o w b e c =
    let o' : Order = record o { status = submitted; submitted_at = some t.now } in
    rw (e, submit_order)
      (settle-IsDone t o' b.close w.db _ (fill_side_covered o.side d o' b.close w c))

submit_via-IsDone :
    (br : Broker) (d : Decimals) (t : Clock) (o : Order) (w : World) (b : PriceBar)
    → br ≡ paper
    → last_bar o.instrument w.db.bars ≡ some b
    → IsCovered o.side w.account.id o.instrument o.quantity b.close w.db
    → IsDone (submit_via br d t o w).0
unfolding submit_via
submit_via-IsDone paper d t o w b k e c = submit_order-IsDone d t o w b e c
submit_via-IsDone unregistered d t o w b k e c = absurd cc

IsCovered-same :
    (s : Side) (a i q price : ℕ) (x y : Db)
    → y.accounts ≡ x.accounts
    → y.positions ≡ x.positions
    → IsCovered s a i q price x
    → IsCovered s a i q price y
IsCovered-same Side.buy a i q price x y k l h = rw (k) h
IsCovered-same Side.sell a i q price x y k l h = rw (k, l) h

Checked-new :
    (d : Decimals) (t : Clock) (a : Account) (i q price : ℕ) (s : Side) (o : Order) (db : Db)
    → Checked d t a i q price s db
    → Checked d t a i q price s (create_order o db)
unfolding create_order equity risk_profile
Checked-new d t a i q price Side.sell o db c = rw (opening-create_order d a t.today o db) c
Checked-new d t a i q price Side.buy o db c = rw (opening-create_order d a t.today o db) c

module _ (d : Decimals) (t : Clock) (i : ℕ) (s : Side) (q : ℕ) (g : Option ℕ) (w : World) where
  abbrev fresh_order : Order
  fresh_order = new_order t w.db w.account.id i g s q pending blank

  vet_and_submit-IsDone :
      {b : PriceBar}
      → last_bar i w.db.bars ≡ some b
      → Checked d t w.account i q b.close s w.db
      → w.account.broker ≡ paper
      → IsCovered s w.account.id i q b.close w.db
      → IsDone
          (vet_and_submit d t fresh_order b.close
            (record w { db = create_order fresh_order w.db })).0
  unfolding vet_and_submit new_order create_order
  vet_and_submit-IsDone {b} e c br h =
      let x = create_order fresh_order w.db in
      let (approved, why, db') = evaluate d t w.account i s q b.close g x in
      let same : SameTrading x db' = evaluate-SameTrading d t w.account i s q b.close g x in
      let yes : approved ≡ true =
        (evaluate_iff d t w.account i s q b.close g x).1
          (Checked-new d t w.account i q b.close s fresh_order w.db c) in
      rw (yes, vet_and_submit)
        (submit_via-IsDone w.account.broker d t fresh_order (record w { db = db' }) b br
          (rw (same.bars) e)
          (IsCovered-same s w.account.id i q b.close w.db db' same.accounts same.positions h))

  place_side-IsDone :
      {b : PriceBar}
      → is_duplicate t.now w.account.id i s w.db ≡ false
      → last_bar i w.db.bars ≡ some b
      → Checked d t w.account i q b.close s w.db
      → w.account.broker ≡ paper
      → IsCovered s w.account.id i q b.close w.db
      → IsDone (place_side d t i s q g w).0
  unfolding place_side
  place_side-IsDone {b} n e c br h = rw (n, e, place_side) (vet_and_submit-IsDone e c br h)

notified-IsDone : (r : Result Order × World) → IsDone r.0 → IsDone (notified r).0
unfolding notified
notified-IsDone (ok o, w) h = h
notified-IsDone (raised e, w) h = h

-- An order is filled if no order of the last five minutes makes it a duplicate, it passes every risk
-- check at the latest close, its account object names the paper broker, the account's row is there,
-- and the row's cash covers the cost of a purchase, or the position covers a sale.
pub place_order-Filled :
    (d : Decimals) (t : Clock) (i : ℕ) (s : Side) (q : ℕ) (g : Option ℕ) (w : World) {b : PriceBar}
    → is_duplicate t.now w.account.id i s w.db ≡ false
    → last_bar i w.db.bars ≡ some b
    → Checked d t w.account i q b.close s w.db
    → w.account.broker ≡ paper
    → IsCovered s w.account.id i q b.close w.db
    → IsDone (place_order d t i (action_of s) q g w).0
unfolding place_order
place_order-Filled d t i Side.buy q g w n e c br h =
    notified-IsDone _ (place_side-IsDone d t i Side.buy q g w n e c br h)
place_order-Filled d t i Side.sell q g w n e c br h =
    notified-IsDone _ (place_side-IsDone d t i Side.sell q g w n e c br h)
