-- ===== src/Broker/Frame.antt =====
-- What a fill of `PaperBroker` leaves alone, and the rows that it keeps well-formed.
use automated_stock_trading.Common.{
  ℕ, ◌-◌, ◌*◌, ◌<◌, ◌≡◌, ◌≢◌, ◌⊎◌, refl, sym, subst, some, arith, All, Option-cases, inl, inr,
  Bool-cases, ltb,
}
use automated_stock_trading.Ledger.{
  Side, Order, Position, Db, World, Decimals, Account, find_position, refresh_from_db, save_cash,
}
use automated_stock_trading.Ledger.Positions.{
  IsUnique, IsOpen, find_position-save_position_ne, find_position-delete_position_ne,
  save_position-IsUnique, delete_position-IsUnique, save_position-IsOpen, delete_position-IsOpen,
  find_position_key,
}
use automated_stock_trading.Broker.{
  ok, grow_position, book_purchase, fill_buy, book_sale, fill_sell, fill_side, fill,
}
use automated_stock_trading.Broker.Fills.{Traded, fill_buy-Bought, fill_sell-Sold}

-- The rows that a fill keeps well-formed.
abbrev pub IsTidy : Db → Type 0
IsTidy db = IsUnique db.positions × All IsOpen db.positions

book_purchase-IsTidy :
    (d : Decimals) (a : Account) (o : Order) (price : ℕ) (db : Db)
    → 0 < o.quantity
    → IsTidy db
    → IsTidy (book_purchase d a o price db)
unfolding book_purchase grow_position
book_purchase-IsTidy d a o price db pos t = (
  save_position-IsUnique _ db.positions t.0,
  save_position-IsOpen _ db.positions (ground arith) t.1,
)

book_sale-IsTidy :
    (a : Account) (o : Order) (p : Position) (db : Db) → IsTidy db → IsTidy (book_sale a o p db)
unfolding book_sale
book_sale-IsTidy a o p db t =
    let left = record p { quantity = p.quantity - o.quantity } in
    ground (
      arith,
      save_position-IsUnique left db.positions t.0,
      save_position-IsOpen left db.positions,
      delete_position-IsUnique a.id o.instrument db.positions t.0,
      delete_position-IsOpen a.id o.instrument db.positions t.1,
    )

-- A fill leaves the database alone, or books a purchase or a sale in it.
module _ (P : Db → Type 0) (d : Decimals) (o : Order) (price : ℕ) (w : World) (same : P w.db) where
  fill_buy_cases :
      ((a : Account) → a.id ≡ w.account.id → P (book_purchase d a o price (save_cash d a w.db)))
      → P (fill_buy d o price w).1.db
  unfolding fill_buy refresh_from_db
  fill_buy_cases bought = elim (Option-cases (w.db.accounts w.account.id)) [
    | inl m ↦ rw (m, fill_buy, refresh_from_db) same
    | inr (r, m) ↦
        rw (m, fill_buy, refresh_from_db)
          (elim (Bool-cases (ltb r.cash_balance (price * o.quantity))) [
            | inl short ↦ rw short same
            | inr enough ↦ rw enough (bought _ refl)
          ])
  ]

  fill_sell_cases :
      ((a : Account) (p : Position)
        → a.id ≡ w.account.id
        → find_position w.account.id o.instrument w.db.positions ≡ some p
        → P (book_sale a o p (save_cash d a w.db)))
      → P (fill_sell d o price w).1.db
  unfolding fill_sell refresh_from_db
  fill_sell_cases sold =
      elim (Option-cases (find_position w.account.id o.instrument w.db.positions)) [
        | inl m ↦ rw (m, fill_sell) same
        | inr (p, m) ↦
            rw (m, fill_sell)
              (elim (Bool-cases (ltb p.quantity o.quantity)) [
                | inl short ↦ rw short same
                | inr enough ↦ rw enough (elim (Option-cases (w.db.accounts w.account.id)) [
                  | inl n ↦ rw (n, refresh_from_db) same
                  | inr (r, n) ↦ rw (n, refresh_from_db) (sold _ p refl m)
                ])
              ])
      ]

  pub fill_side_cases :
      (s : Side)
      → ((a : Account) → a.id ≡ w.account.id → P (book_purchase d a o price (save_cash d a w.db)))
      → ((a : Account) (p : Position)
          → a.id ≡ w.account.id
          → find_position w.account.id o.instrument w.db.positions ≡ some p
          → P (book_sale a o p (save_cash d a w.db)))
      → P (fill_side s d o price w).1.db
  unfolding fill_side
  fill_side_cases Side.buy bought sold = fill_buy_cases bought
  fill_side_cases Side.sell bought sold = fill_sell_cases sold

pub fill-IsTidy :
    (d : Decimals) (o : Order) (price : ℕ) (w : World)
    → 0 < o.quantity
    → IsTidy w.db
    → IsTidy (fill d o price w).1.db
unfolding save_cash fill
fill-IsTidy d o price w pos t =
    fill_side_cases IsTidy d o price w t o.side
      (λ a _. book_purchase-IsTidy d a o price (save_cash d a w.db) pos t)
      (λ a p _ _. book_sale-IsTidy a o p (save_cash d a w.db) t)

-- A fill leaves the other tables alone.
pub record SameOrders (x y : Db) : Type 0 where
  pub orders : y.orders ≡ x.orders
  pub next_order : y.next_order ≡ x.next_order
  pub trades : y.trades ≡ x.trades
  pub decisions : y.decisions ≡ x.decisions
  pub bars : y.bars ≡ x.bars

SameOrders-refl : (x : Db) → SameOrders x x
SameOrders-refl x = record {
  orders = refl;
  next_order = refl;
  trades = refl;
  decisions = refl;
  bars = refl;
}

pub fill-SameOrders :
    (d : Decimals) (o : Order) (price : ℕ) (w : World) → SameOrders w.db (fill d o price w).1.db
unfolding save_cash book_purchase book_sale fill
fill-SameOrders d o price w =
    fill_side_cases (SameOrders w.db) d o price w (SameOrders-refl w.db) o.side
      (λ a _. record {
        orders = refl;
        next_order = refl;
        trades = refl;
        decisions = refl;
        bars = refl;
      })
      (λ a p _ _. record {
        orders = refl;
        next_order = refl;
        trades = refl;
        decisions = refl;
        bars = refl;
      })

-- What a fill leaves alone besides: other positions, and other accounts.
abbrev pub OthersSame : (account instrument : ℕ) → Db → Db → Type 0
OthersSame a i x y =
    ((b j : ℕ) → (b ≢ a) ⊎ (j ≢ i) → find_position b j y.positions ≡ find_position b j x.positions)
    × ((b : ℕ) → b ≢ a → y.accounts b ≡ x.accounts b)

-- The full effect of a fill that returned.
abbrev pub Exchanged : Decimals → Order → ℕ → World → Db → Type 0
Exchanged d o price w y =
    Traded o.side d w.account.id o.instrument o.quantity price w.db y
    × OthersSame w.account.id o.instrument w.db y

fill_side-Exchanged :
    (s : Side) (d : Decimals) (o : Order) (price : ℕ) (w : World)
    → IsUnique w.db.positions
    → (fill_side s d o price w).0 ≡ ok tt
    → Traded s d w.account.id o.instrument o.quantity price w.db (fill_side s d o price w).1.db
unfolding fill_side
fill_side-Exchanged Side.buy d o price w u e = fill_buy-Bought d o price w e
fill_side-Exchanged Side.sell d o price w u e = fill_sell-Sold d o price w u e

book_purchase-OthersSame :
    (d : Decimals) (a : Account) (o : Order) (price : ℕ) (db : Db)
    → OthersSame a.id o.instrument db (book_purchase d a o price (save_cash d a db))
unfolding book_purchase grow_position save_cash
book_purchase-OthersSame d a o price db = (
  λ b j h. elim (Option-cases (find_position a.id o.instrument db.positions)) [
    | inl e ↦ rw e (find_position-save_position_ne b j _ db.positions h)
    | inr (p, e) ↦ rw e (
        ground (
          arith,
          find_position_key a.id o.instrument db.positions e,
          find_position-save_position_ne b j (grow_position d p o.quantity price) db.positions,
        ))
  ],
  λ b h. ground arith,
)

book_sale-OthersSame :
    (d : Decimals) (a : Account) (o : Order) (p : Position) (db : Db)
    → find_position a.id o.instrument db.positions ≡ some p
    → OthersSame a.id o.instrument db (book_sale a o p (save_cash d a db))
unfolding book_sale save_cash
book_sale-OthersSame d a o p db e = (
  λ b j h. ground (
    arith,
    find_position_key a.id o.instrument db.positions e,
    find_position-save_position_ne b j (record p { quantity = p.quantity - o.quantity })
        db.positions,
    find_position-delete_position_ne b j a.id o.instrument db.positions h,
  ),
  λ b h. ground arith,
)

OthersSame-refl : (a i : ℕ) (x : Db) → OthersSame a i x x
OthersSame-refl a i x = (λ b j h. refl, λ b h. refl)

pub fill-Exchanged :
    (d : Decimals) (o : Order) (price : ℕ) (w : World)
    → IsUnique w.db.positions
    → (fill d o price w).0 ≡ ok tt
    → Exchanged d o price w (fill d o price w).1.db
unfolding fill
fill-Exchanged d o price w u e = (
  fill_side-Exchanged o.side d o price w u e,
  fill_side_cases (OthersSame w.account.id o.instrument w.db) d o price w
      (OthersSame-refl w.account.id o.instrument w.db) o.side
      (λ a k.
        subst (λ n. OthersSame n o.instrument w.db (book_purchase d a o price (save_cash d a w.db)))
          k (book_purchase-OthersSame d a o price w.db))
      (λ a p k m.
        subst (λ n. OthersSame n o.instrument w.db (book_sale a o p (save_cash d a w.db))) k
          (book_sale-OthersSame d a o p w.db
            (subst (λ n. find_position n o.instrument w.db.positions ≡ some p) (sym k) m))),
)
