-- ===== src/Ledger/Queries.antt =====
-- The queries that the trading code makes, and the properties of the models that run one.
use automated_stock_trading.Common.{
  ℕ, ◌+◌, ◌*◌, Bool, ◌&&◌, Option, none, some, List, [], ◌∷◌, ltb, ◌==◌, if◌then◌else◌, first,
}
use automated_stock_trading.Ledger.Rows.{PriceBar, Account, Position, Order, Trade, Db, Decimals}

-- The later of a bar and the latest of those after it.
abbrev newer : PriceBar → Option PriceBar → Option PriceBar
newer b none = some b
newer b (some c) = if ltb c.timestamp b.timestamp then some b else some c

-- `instrument.price_bars.order_by("-timestamp").first()`
unfoldable pub last_bar : ℕ → List PriceBar → Option PriceBar
last_bar i [] = none
last_bar i (b ∷ bs) = let rest = last_bar i bs in if b.instrument == i then newer b rest else rest

abbrev pub is_held : ℕ → ℕ → Position → Bool
is_held a i p = p.account == a && p.instrument == i

-- `Position.objects.filter(account=account, instrument=instrument).first()`, and `.get`.
unfoldable pub find_position : ℕ → ℕ → List Position → Option Position
find_position a i = first (is_held a i)

-- `position.save()` of a row that is there, or its creation.
unfoldable pub save_position : Position → List Position → List Position
save_position p [] = p ∷ []
save_position p (q ∷ qs) =
    if is_held p.account p.instrument q then p ∷ qs else q ∷ save_position p qs

-- `position.delete()`
unfoldable pub delete_position : ℕ → ℕ → List Position → List Position
delete_position a i [] = []
delete_position a i (q ∷ qs) = if is_held a i q then qs else q ∷ delete_position a i qs

-- `Position.market_value`
unfoldable pub market_value : List PriceBar → Position → ℕ
market_value bars p = elim (last_bar p.instrument bars) [
  | none ↦ p.avg_entry_price * p.quantity
  | some b ↦ b.close * p.quantity
]

-- The sum over the positions of one account.
unfoldable pub holdings_value : ℕ → List PriceBar → List Position → ℕ
holdings_value a bars [] = 0
holdings_value a bars (p ∷ ps) =
    (if p.account == a then market_value bars p else 0) + holdings_value a bars ps

-- `Account.equity`: the cash of the object in memory, with the positions of the database.
unfoldable pub equity : Account → Db → ℕ
equity a db = a.cash_balance + holdings_value a.id db.bars db.positions

-- `account.refresh_from_db()`
unfoldable pub refresh_from_db : Account → Db → Option Account
refresh_from_db a db = elim (db.accounts a.id) [
  | none ↦ none
  | some r ↦ some (record a { owner = r.owner; broker = r.broker; cash_balance = r.cash_balance })
]

-- `account.save(update_fields=["cash_balance", "updated_at"])`
unfoldable pub save_cash : Decimals → Account → Db → Db
save_cash d a db = record db {
  accounts = λ j.
      if j == a.id
      then some (record a { cash_balance = d.store_cash a.cash_balance })
      else db.accounts j;
}

-- `Order.objects.create(...)`: a new row under the next number.
unfoldable pub create_order : Order → Db → Db
create_order o db = record db { orders = o ∷ db.orders; next_order = db.next_order + 1 }

unfoldable pub replace_order : Order → List Order → List Order
replace_order o [] = []
replace_order o (p ∷ ps) = if p.id == o.id then o ∷ ps else p ∷ replace_order o ps

-- `order.save()` of a row that is there.
unfoldable pub save_order : Order → Db → Db
unfolding replace_order
save_order o db = record db { orders = replace_order o db.orders }

-- `Trade.objects.create(...)`
unfoldable pub create_trade : Trade → Db → Db
create_trade t db = record db { trades = t ∷ db.trades }
