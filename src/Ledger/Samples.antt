-- ===== src/Ledger/Samples.antt =====
-- Rows to run the model on: one account, one instrument with two bars, and no order yet.
use automated_stock_trading.Common.{
  ℕ, ◌+◌, ◌*◌, ◌/◌, ◌==◌, if◌then◌else◌, false, none, some, [], ◌∷◌,
}
use automated_stock_trading.Ledger.Rows.{
  PriceBar, Account, paper, Position, Db, World, Clock, Decimals,
}

-- A cash column that keeps the nearest hundred of ticks, and a price column that cuts the quotient.
abbrev pub rounding : Decimals
rounding = record { store_cash = λ c. (c + 50) / 100 * 100; store_price = λ t q. t / q }

abbrev pub noon : Clock
noon = record { now = 1_000_000_000; today = 20 }

-- Two minutes later.
abbrev pub later : Clock
later = record { now = 1_120_000_000; today = 20 }

-- 100,000 rupees in ticks of a ten-thousandth.
abbrev pub saver : Account
saver = record { id = 1; owner = 7; broker = paper; cash_balance = 1_000_000_000 }

abbrev pub daily_bar : (timestamp close : ℕ) → PriceBar
daily_bar t c = record {
  instrument = 3;
  timestamp = t;
  open_price = c;
  high = c;
  low = c;
  close = c;
  volume = 900;
  is_anomaly = false;
}

abbrev pub empty_db : Db
empty_db = record {
  accounts = λ j. if j == 1 then some saver else none;
  profiles = λ j. none;
  bars = daily_bar 11 520_000 ∷ daily_bar 10 500_000 ∷ [];
  positions = [];
  orders = [];
  next_order = 1;
  trades = [];
  snapshots = [];
  decisions = [];
  alerts = [];
}

abbrev pub opened : World
opened = record { account = saver; db = empty_db }

-- The account holds ten units of the instrument.
abbrev pub held : Position
held = record { account = 1; instrument = 3; quantity = 10; avg_entry_price = 500_000 }

abbrev pub holding : World
holding = record { account = saver; db = record empty_db { positions = held ∷ [] } }
