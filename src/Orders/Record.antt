-- ===== src/Orders/Record.antt =====
-- The row of a placed order, and the guard against placing it twice.
use automated_stock_trading.Common.{
  ℕ, ◌+◌, ◌≤◌, ◌≡◌, refl, ap, subst, ◌∙◌, Option, true, false, List, ◌∷◌, arith, Bool-cases,
  Option-cases, inl, inr,
}
use automated_stock_trading.Ledger.{
  Action, Side, pending, rejected, blank, duplicate_guard, no_risk_price, Order, Db, World, Clock,
  Decimals, last_bar, create_order,
}
use automated_stock_trading.Risk.{evaluate}
use automated_stock_trading.Risk.Limits.{evaluate-SameTrading}
use automated_stock_trading.Broker.{Result, ok, raised}
use automated_stock_trading.Broker.Record.{Recorded, reject-Recorded, submit_via-Recorded}
use automated_stock_trading.Orders.{
  duplicate_order_window, same_side, is_dead, is_duplicate, new_order, vet_and_submit, place_side,
  notify, notified, place_order,
}

vet_and_submit-Recorded :
    (d : Decimals) (t : Clock) (o : Order) (os : List Order) (price : ℕ) (w : World)
    → w.db.orders ≡ o ∷ os
    → Recorded o os (vet_and_submit d t o price w)
unfolding vet_and_submit
vet_and_submit-Recorded d t o os price w top =
    let (approved, why, db') =
      evaluate d t w.account o.instrument o.side o.quantity price o.strategy w.db in
    let s =
      evaluate-SameTrading d t w.account o.instrument o.side o.quantity price o.strategy w.db in
    elim (Bool-cases approved) [
      | inl e ↦
          rw e (
            submit_via-Recorded w.account.broker d t o os (record w { db = db' }) (rw s.orders top))
      | inr e ↦
          rw e (reject-Recorded o o os why (record w { db = db' }) (ground arith) (rw s.orders top))
    ]

-- What an order asks for, whatever becomes of it.
abbrev request : Clock → Db → ℕ → ℕ → Option ℕ → Side → ℕ → Order
request t db a i g s q = new_order t db a i g s q pending blank

pub place_side-Recorded :
    (d : Decimals) (t : Clock) (i : ℕ) (s : Side) (q : ℕ) (g : Option ℕ) (w : World)
    → Recorded (request t w.db w.account.id i g s q) w.db.orders (place_side d t i s q g w)
unfolding place_side create_order new_order
place_side-Recorded d t i s q g w =
    let o = request t w.db w.account.id i g s q in
    let w' = record w { db = create_order o w.db } in
    elim (Bool-cases (is_duplicate t.now w.account.id i s w.db)) [
      | inl e ↦ rw (e, place_side) (ground arith)
      | inr e ↦
          rw (e, place_side)
            (elim (Option-cases (last_bar i w.db.bars)) [
              | inl n ↦ rw n (reject-Recorded o o w.db.orders no_risk_price w' (ground arith) refl)
              | inr (b, n) ↦ rw n (vet_and_submit-Recorded d t o w.db.orders b.close w' refl)
            ])
    ]

abbrev pub action_of : Side → Action
action_of Side.buy = Action.buy
action_of Side.sell = Action.sell

-- The order is not known to have come to nothing: it was not rejected or cancelled, or the call
-- raised and left it pending.
abbrev pub IsLive : Result Order → Type 0
IsLive (ok o) = is_dead o.status ≡ false
IsLive (raised e) = Unit

same_side_refl : (s : Side) → same_side s s ≡ true
same_side_refl Side.buy = refl
same_side_refl Side.sell = refl

place_order-side :
    (d : Decimals) (t : Clock) (i : ℕ) (s : Side) (q : ℕ) (g : Option ℕ) (w : World)
    → place_order d t i (action_of s) q g w ≡ notified (place_side d t i s q g w)
unfolding place_order
place_order-side d t i Side.buy q g w = refl
place_order-side d t i Side.sell q g w = refl

-- A live request at the head of the orders is found by the guard for as long as the window lasts.
is_duplicate-head :
    (t u : Clock) (db : Db) (a i : ℕ) (s : Side) (q : ℕ) (g : Option ℕ) (r : Result Order × World)
    → Recorded (request t db a i g s q) db.orders r
    → IsLive r.0
    → u.now ≤ t.now + duplicate_order_window
    → is_duplicate u.now a i s r.1.db ≡ true
unfolding is_duplicate new_order
is_duplicate-head t u db a i s q g (ok o, w) (same, top) live h =
    rw (top, same.side) (ground (arith, same_side_refl s))
is_duplicate-head t u db a i s q g (raised e, w) top live h =
    rw top (ground (arith, same_side_refl s))

IsLive-notified : (r : Result Order × World) → IsLive (notified r).0 → IsLive r.0
unfolding notified
IsLive-notified (ok o, w) h = h
IsLive-notified (raised e, w) h = h

notified-orders : (r : Result Order × World) → (notified r).1.db.orders ≡ r.1.db.orders
unfolding notified notify
notified-orders (ok o, w) = refl
notified-orders (raised e, w) = refl

-- What the guard makes of an order: a rejected row, and nothing else but an alert.
abbrev pub Refused : World → Result Order × World → Type 0
Refused w (raised e, w') = ⊥
Refused w (ok o, w') =
    (o.status ≡ rejected)
    × (o.rejection_reason ≡ duplicate_guard)
    × (w'.db.accounts ≡ w.db.accounts)
    × (w'.db.positions ≡ w.db.positions)
    × (w'.db.trades ≡ w.db.trades)
    × (w'.db.decisions ≡ w.db.decisions)
    × (w'.db.snapshots ≡ w.db.snapshots)
    × (w'.db.orders ≡ o ∷ w.db.orders)

place_side-Refused :
    (d : Decimals) (u : Clock) (i : ℕ) (s : Side) (q : ℕ) (g : Option ℕ) (w : World)
    → is_duplicate u.now w.account.id i s w.db ≡ true
    → Refused w (notified (place_side d u i s q g w))
unfolding place_side notified notify create_order new_order
place_side-Refused d u i s q g w e =
    rw (e, place_side) (refl, refl, refl, refl, refl, refl, refl, refl)

-- If placing an order did not end in a rejection, then placing one for the same account, instrument
-- and side, in the database so reached and at most five minutes later, is refused as a duplicate,
-- whatever its quantity and strategy: it writes its own rejected row and leaves the books and the audit trail alone.
pub place_order-again :
    (d : Decimals) (t u : Clock) (i : ℕ) (s : Side) (q q' : ℕ) (g g' : Option ℕ) (w v : World)
    → IsLive (place_order d t i (action_of s) q g w).0
    → v.account.id ≡ w.account.id
    → v.db ≡ (place_order d t i (action_of s) q g w).1.db
    → u.now ≤ t.now + duplicate_order_window
    → Refused v (place_order d u i (action_of s) q' g' v)
unfolding is_duplicate
place_order-again d t u i s q q' g g' w v live same reached h =
    let r = place_side d t i s q g w in
    let now : place_order d t i (action_of s) q g w ≡ notified r = place_order-side d t i s q g w in
    let rows : v.db.orders ≡ r.1.db.orders =
      ap (λ (x : Db). x.orders) reached
      ∙ ap (λ (x : Result Order × World). x.1.db.orders) now
      ∙ notified-orders r in
    let found : is_duplicate u.now w.account.id i s r.1.db ≡ true =
      is_duplicate-head t u w.db w.account.id i s q g r (place_side-Recorded d t i s q g w)
        (IsLive-notified r (subst (λ (x : Result Order × World). IsLive x.0) now live)) h in
    rw (place_order-side d u i s q' g' v)
      (place_side-Refused d u i s q' g' v (rw (same, rows) found))
