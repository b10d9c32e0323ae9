-- ===== src/Broker/Fills.antt =====
-- What one fill of `PaperBroker` does: the exact change on success, and nothing on an exception.
use automated_stock_trading.Common.{
  ℕ, ◌+◌, ◌-◌, ◌*◌, ◌≤◌, ◌≡◌, none, some, List, arith, Option-cases, inl, inr,
}
use automated_stock_trading.Ledger.{
  Side, Order, Trade, Position, Db, World, Decimals, Account, find_position, refresh_from_db,
  save_cash,
}
use automated_stock_trading.Ledger.Positions.{
  IsUnique, units, find_position-save_position, find_position-delete_position, find_position_key,
}
use automated_stock_trading.Broker.{
  ok, grow_position, book_purchase, fill_buy, book_sale, fill_sell,
}

-- The cash that the database holds for an account.
abbrev pub stored_cash : ℕ → Db → ℕ
stored_cash a db = elim (db.accounts a) [ none ↦ 0 | some r ↦ r.cash_balance ]

units-book_purchase :
    (d : Decimals) (a : Account) (o : Order) (price : ℕ) (db : Db)
    → units a.id o.instrument (book_purchase d a o price db).positions
      ≡ units a.id o.instrument db.positions + o.quantity
unfolding units book_purchase
units-book_purchase d a o price db =
    elim (Option-cases (find_position a.id o.instrument db.positions)) [
      | inl e ↦ rw e (
          ground (
            arith,
            find_position-save_position
                (record {
                  account = a.id;
                  instrument = o.instrument;
                  quantity = o.quantity;
                  avg_entry_price = price;
                })
                db.positions,
          ))
      | inr (p, e) ↦ rw e (
          ground (
            arith,
            find_position_key a.id o.instrument db.positions e,
            find_position-save_position (grow_position d p o.quantity price) db.positions,
          ))
    ]

units-book_sale :
    (a : Account) (o : Order) (p : Position) (db : Db)
    → IsUnique db.positions
    → find_position a.id o.instrument db.positions ≡ some p
    → o.quantity ≤ p.quantity
    → units a.id o.instrument (book_sale a o p db).positions + o.quantity
      ≡ units a.id o.instrument db.positions
unfolding units book_sale
units-book_sale a o p db u e h = ground (
  arith,
  find_position_key a.id o.instrument db.positions e,
  find_position-save_position (record p { quantity = p.quantity - o.quantity }) db.positions,
  find_position-delete_position a.id o.instrument db.positions u,
)

-- What a purchase that returned has done to the cash and to the units held.
abbrev pub Bought : Decimals → (account instrument quantity price : ℕ) → Db → Db → Type 0
Bought d a i q price x y =
    (price * q ≤ stored_cash a x)
    × (stored_cash a y ≡ d.store_cash (stored_cash a x - price * q))
    × (units a i y.positions ≡ units a i x.positions + q)

abbrev pub Sold : Decimals → (account instrument quantity price : ℕ) → Db → Db → Type 0
Sold d a i q price x y =
    (stored_cash a y ≡ d.store_cash (stored_cash a x + price * q))
    × (units a i y.positions + q ≡ units a i x.positions)

-- The account object once it has been read again and its cash set.
abbrev with_cash : Account → Account → ℕ → Account
with_cash a row c = record a { owner = row.owner; broker = row.broker; cash_balance = c }

pub fill_buy-Bought :
    (d : Decimals) (o : Order) (price : ℕ) (w : World)
    → (fill_buy d o price w).0 ≡ ok tt
    → Bought d w.account.id o.instrument o.quantity price w.db (fill_buy d o price w).1.db
unfolding fill_buy refresh_from_db save_cash
fill_buy-Bought d o price w e = elim (Option-cases (w.db.accounts w.account.id)) [
  | inl m ↦ ground arith
  | inr (r, m) ↦
      let paid = with_cash w.account r (r.cash_balance - price * o.quantity) in
      ground (arith, units-book_purchase d paid o price (save_cash d paid w.db))
]

pub fill_sell-Sold :
    (d : Decimals) (o : Order) (price : ℕ) (w : World)
    → IsUnique w.db.positions
    → (fill_sell d o price w).0 ≡ ok tt
    → Sold d w.account.id o.instrument o.quantity price w.db (fill_sell d o price w).1.db
unfolding fill_sell refresh_from_db save_cash
fill_sell-Sold d o price w u e =
    elim (Option-cases (find_position w.account.id o.instrument w.db.positions)) [
      | inl m ↦ ground arith
      | inr (p, m) ↦ elim (Option-cases (w.db.accounts w.account.id)) [
        | inl n ↦ ground arith
        | inr (r, n) ↦
            let paid = with_cash w.account r (r.cash_balance + price * o.quantity) in
            ground (arith, units-book_sale paid o p (save_cash d paid w.db) u m)
      ]
    ]

abbrev pub Traded : Side → Decimals → (account instrument quantity price : ℕ) → Db → Db → Type 0
Traded Side.buy = Bought
Traded Side.sell = Sold

-- The exchange shows in the cash and the positions alone.
pub Traded-orders :
    (s : Side) (d : Decimals) (a i q price : ℕ) (x y : Db) (os : List Order) (ts : List Trade)
    → Traded s d a i q price x y
    → Traded s d a i q price x (record y { orders = os; trades = ts })
Traded-orders Side.buy d a i q price x y os ts h = h
Traded-orders Side.sell d a i q price x y os ts h = h
